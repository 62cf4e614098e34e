-- ===== src/Core/Template.antt =====
-- crates/hyperbox-core/src/template.rs: the registry of built-in templates. A `BTreeMap` is an
-- association list that `insert_sorted` keeps in the order of its keys.
use hyperbox.Prelude.{
  Bool, true, false, Option, List, [], ◌∷◌, Text, codes, ltb, nat_beq, text_eq, ◌==◌, is_some,
  if◌then◌else◌, Assoc, lookup, values,
}
use hyperbox.Core.Error.{Result, ok, err, HyperboxError, template_not_found}

pub record Template : Type 0 where
  pub name : Text
  pub description : Text

-- Whether one text comes before another, as `Ord` on strings of ASCII.
pub text_ltb : Text → Text → Bool
text_ltb [] [] = false
text_ltb [] (d ∷ t) = true
text_ltb (c ∷ s) [] = false
text_ltb (c ∷ s) (d ∷ t) = let rest = text_ltb s t in if nat_beq c d then rest else ltb c d

insert_sorted : Text → Template → Assoc Text Template → Assoc Text Template
insert_sorted k v [] = (k, v) ∷ []
insert_sorted k v ((j, w) ∷ m) =
    let rest = insert_sorted k v m in
    if j == k then (k, v) ∷ m else if text_ltb k j then (k, v) ∷ (j, w) ∷ m else (j, w) ∷ rest

-- `struct TemplateRegistry`
abbrev pub TemplateRegistry : Type 0
TemplateRegistry = Assoc Text Template

insert : TemplateRegistry → Template → TemplateRegistry
insert registry template = insert_sorted template.name template registry

insert_all : TemplateRegistry → List (Text × Text) → TemplateRegistry
insert_all registry [] = registry
insert_all registry ((name, desc) ∷ rest) =
    insert_all (insert registry (record { name = name; description = desc })) rest

abbrev defaults : List (Text × Text)
defaults =
    (codes "python:3.11", codes "Python 3.11 with pip")
    ∷ (codes "python:3.12", codes "Python 3.12 with pip")
    ∷ (codes "node:18", codes "Node.js 18 with npm")
    ∷ (codes "node:20", codes "Node.js 20 with npm")
    ∷ (codes "golang:1.22", codes "Go 1.22 toolchain")
    ∷ (codes "rust:1.75", codes "Rust stable toolchain")
    ∷ (codes "ubuntu:22.04", codes "Ubuntu base userspace")
    ∷ []

unfoldable pub with_defaults : TemplateRegistry
unfolding insert_all insert insert_sorted text_ltb
with_defaults = insert_all [] defaults

get : TemplateRegistry → Text → Option Template
get registry name = lookup name registry

unfoldable pub ensure_exists : TemplateRegistry → Text → Result HyperboxError (Unit {0})
unfolding lookup
ensure_exists registry name =
    if is_some (lookup name registry) then ok tt else err (template_not_found name)

-- `TemplateRegistry::list`, with the names that the server's `templates` takes.
unfoldable pub list : TemplateRegistry → List Template
unfolding values
list registry = values registry
