-- ===== src/Server/Runtime/Table.antt =====
-- The process table of crates/hyperbox-server/src/runtime.rs, beside records that a method has read
-- from it and still holds.
use hyperbox.Prelude.{
  Bool, true, false, some, List, [], ◌∷◌, ◌++◌, ◌≡◌, refl, sym, ap, ◌∙◌, ◌⊎◌, inl, inr, arith,
  Assoc, lookup, insert, remove, values, keep, lookup-insert, lookup-remove, nat_eq, nat_beq,
  nat_beq_self, Bool-cases, AllEntries, AllEntries-insert, AllEntries-remove, AllEntries-lookup,
  Distinct, Distinct-insert, Distinct-remove, if◌then◌else◌,
}
use hyperbox.Core.Process.{ProcessInfo, ProcessId, is_terminal}
use hyperbox.Server.Probe.Settled.{IsSettled}

abbrev pub Table : Type 0
Table = Assoc ProcessId ProcessInfo

abbrev pub IsEntry : ProcessId → ProcessInfo → Type 0
IsEntry id p = (p.id ≡ id) × IsSettled p

-- A record stands in a list.
abbrev pub InList : ProcessInfo → List ProcessInfo → Type 0
InList p [] = ⊥
InList p (q ∷ l) = (p ≡ q) ⊎ InList p l

-- The table holds a record.
abbrev pub Held : Table → ProcessInfo → Type 0
Held m p = (k : ProcessId) × (lookup k m ≡ some p)

abbrev pub Known : List ProcessInfo → Table → ProcessInfo → Type 0
Known l m p = InList p l ⊎ Held m p

-- Two records are not two live processes of one sandbox.
pub record Agree (p q : ProcessInfo) : Type 0 where
  pub one :
      is_terminal p.status ≡ false
      → is_terminal q.status ≡ false
      → p.sandbox_id ≡ q.sandbox_id
      → p.id ≡ q.id

-- The table is in order, and agrees with the records `l` that a method holds.
pub record IsTable (l : List ProcessInfo) (m : Table) : Type 0 where
  pub entries : AllEntries IsEntry m
  pub distinct : Distinct m
  pub settled : (p : ProcessInfo) → InList p l → IsSettled p
  pub exclusive : (p q : ProcessInfo) → Known l m p → Known l m q → Agree p q

Held-insert : (q r : ProcessInfo) (m : Table) → Held (insert q.id q m) r → (r ≡ q) ⊎ Held m r
Held-insert q r m (k, h) = elim (Bool-cases (nat_beq q.id k)) [
  | inl t ↦ inl (ground (arith, lookup-insert q.id k q m))
  | inr f ↦ inr (k, ground (arith, lookup-insert q.id k q m))
]

Held-remove : (id : ProcessId) (r : ProcessInfo) (m : Table) → Held (remove id m) r → Held m r
Held-remove id r m (k, h) = (k, ground (arith, lookup-remove id k m))

pub InList-append :
    (r : ProcessInfo) (l l' : List ProcessInfo) → InList r (l ++ l') → InList r l ⊎ InList r l'
InList-append r [] l' i = inr i
InList-append r (p ∷ l) l' (inl e) = inl (inl e)
InList-append r (p ∷ l) l' (inr i) = elim (InList-append r l l' i) [
  | inl j ↦ inl (inr j)
  | inr j ↦ inr j
]

pub InList-left : (r : ProcessInfo) (l l' : List ProcessInfo) → InList r l → InList r (l ++ l')
InList-left r [] l' i = absurd i
InList-left r (p ∷ l) l' (inl e) = inl e
InList-left r (p ∷ l) l' (inr i) = inr (InList-left r l l' i)

pub InList-right : (r : ProcessInfo) (l l' : List ProcessInfo) → InList r l' → InList r (l ++ l')
InList-right r [] l' i = i
InList-right r (p ∷ l) l' i = inr (InList-right r l l' i)

pub InList-keep :
    (t : ProcessInfo → Bool) (r : ProcessInfo) (l : List ProcessInfo)
    → InList r (keep t l)
    → InList r l
InList-keep t r [] i = absurd i
InList-keep t r (p ∷ l) i = by_test (t p) (InList-keep t r l) i
  where
    by_test :
        (b : Bool)
        → (InList r (keep t l) → InList r l)
        → InList r (if b then p ∷ keep t l else keep t l)
        → InList r (p ∷ l)
    by_test true rest (inl e) = inl e
    by_test true rest (inr j) = inr (rest j)
    by_test false rest j = inr (rest j)

-- The table's values are held.
pub values-Held :
    (m : Table)
    → AllEntries IsEntry m
    → Distinct m
    → (p : ProcessInfo) → InList p (values m)
    → Held m p
unfolding values lookup
values-Held [] a d p i = absurd i
values-Held ((k, v) ∷ m) a d p (inl e) = (k, rw (nat_beq_self k, e) refl)
values-Held ((k, v) ∷ m) a d p (inr i) =
    let (j, h) = values-Held m a.1 d.1 p i in (j, ground (arith, d.0))

-- A record of a known process takes the place of the process's entry.
pub insert-IsTable :
    (l : List ProcessInfo) (m : Table) (p q : ProcessInfo)
    → Known l m p
    → is_terminal p.status ≡ false
    → q.id ≡ p.id
    → q.sandbox_id ≡ p.sandbox_id
    → IsSettled q
    → IsTable l m
    → IsTable l (insert q.id q m)
insert-IsTable l m p q known alive id sandbox settled t = record {
  entries = AllEntries-insert IsEntry q.id q m (refl, settled) t.entries;
  distinct = Distinct-insert q.id q m t.distinct;
  settled = t.settled;
  exclusive = λ r s kr ks. agree r s (origin r kr) (origin s ks);
}
  where
    origin : (r : ProcessInfo) → Known l (insert q.id q m) r → (r ≡ q) ⊎ Known l m r
    origin r (inl i) = inr (inl i)
    origin r (inr h) = elim (Held-insert q r m h) [ inl e ↦ inl e | inr g ↦ inr (inr g) ]

    agree : (r s : ProcessInfo) → (r ≡ q) ⊎ Known l m r → (s ≡ q) ⊎ Known l m s → Agree r s
    agree r s (inl e) (inl f) = record { one = λ a b c. cc }
    agree r s (inl e) (inr k) = record {
      one = λ a b c.
          ap (λ (x : ProcessInfo). x.id) e
          ∙ id
          ∙ (t.exclusive p s known k).one alive b
              (sym sandbox ∙ sym (ap (λ (x : ProcessInfo). x.sandbox_id) e) ∙ c);
    }
    agree r s (inr k) (inl f) = record {
      one = λ a b c.
          (t.exclusive r p k known).one a alive
            (c ∙ ap (λ (x : ProcessInfo). x.sandbox_id) f ∙ sandbox)
          ∙ sym id
          ∙ sym (ap (λ (x : ProcessInfo). x.id) f);
    }
    agree r s (inr j) (inr k) = t.exclusive r s j k

pub remove-IsTable :
    (l : List ProcessInfo) (m : Table) (id : ProcessId) → IsTable l m → IsTable l (remove id m)
remove-IsTable l m id t = record {
  entries = AllEntries-remove IsEntry id m t.entries;
  distinct = Distinct-remove id m t.distinct;
  settled = t.settled;
  exclusive = λ r s kr ks. t.exclusive r s (origin r kr) (origin s ks);
}
  where
    origin : (r : ProcessInfo) → Known l (remove id m) r → Known l m r
    origin r (inl i) = inl i
    origin r (inr h) = inr (Held-remove id r m h)

-- Fewer records held, and more that the table holds itself.
pub fewer-IsTable :
    (l l' : List ProcessInfo) (m : Table)
    → ((p : ProcessInfo) → InList p l' → InList p l)
    → IsTable l m
    → IsTable l' m
fewer-IsTable l l' m sub t = record {
  entries = t.entries;
  distinct = t.distinct;
  settled = λ p i. t.settled p (sub p i);
  exclusive = λ r s kr ks. t.exclusive r s (origin r kr) (origin s ks);
}
  where
    origin : (r : ProcessInfo) → Known l' m r → Known l m r
    origin r (inl i) = inl (sub r i)
    origin r (inr h) = inr h

pub more-IsTable :
    (l l' : List ProcessInfo) (m : Table)
    → ((p : ProcessInfo) → InList p l' → Known l m p)
    → IsTable l m
    → IsTable l' m
more-IsTable l l' m sub t = record {
  entries = t.entries;
  distinct = t.distinct;
  settled = λ p i. settled_of p (sub p i);
  exclusive = λ r s kr ks. t.exclusive r s (origin r kr) (origin s ks);
}
  where
    settled_of : (p : ProcessInfo) → Known l m p → IsSettled p
    settled_of p (inl i) = t.settled p i
    settled_of p (inr (k, h)) = (AllEntries-lookup IsEntry k p m t.entries h).1

    origin : (r : ProcessInfo) → Known l' m r → Known l m r
    origin r (inl i) = sub r i
    origin r (inr h) = inr h

-- A new process enters a sandbox that has no live one.
pub claim-IsTable :
    (m : Table) (p : ProcessInfo)
    → IsSettled p
    → ((r : ProcessInfo) → Held m r → r.sandbox_id ≡ p.sandbox_id → is_terminal r.status ≡ true)
    → IsTable [] m
    → IsTable (p ∷ []) (insert p.id p m)
claim-IsTable m p settled idle t = record {
  entries = AllEntries-insert IsEntry p.id p m (refl, settled) t.entries;
  distinct = Distinct-insert p.id p m t.distinct;
  settled = settled_of;
  exclusive = λ r s kr ks. agree r s (origin r kr) (origin s ks);
}
  where
    settled_of : (r : ProcessInfo) → InList r (p ∷ []) → IsSettled r
    settled_of r (inl e) = rw e settled
    settled_of r (inr i) = absurd i

    origin : (r : ProcessInfo) → Known (p ∷ []) (insert p.id p m) r → (r ≡ p) ⊎ Held m r
    origin r (inl (inl e)) = inl e
    origin r (inl (inr i)) = absurd i
    origin r (inr h) = Held-insert p r m h

    agree : (r s : ProcessInfo) → (r ≡ p) ⊎ Held m r → (s ≡ p) ⊎ Held m s → Agree r s
    agree r s (inl e) (inl f) = record { one = λ a b c. cc }
    agree r s (inl e) (inr h) = record {
      one = λ a b c.
          let over = idle s h (sym c ∙ ap (λ (x : ProcessInfo). x.sandbox_id) e) in
          absurd (ground arith);
    }
    agree r s (inr h) (inl f) = record {
      one = λ a b c.
          let over = idle r h (c ∙ ap (λ (x : ProcessInfo). x.sandbox_id) f) in
          absurd (ground arith);
    }
    agree r s (inr g) (inr h) = t.exclusive r s (inr g) (inr h)

pub empty-IsTable : IsTable [] []
unfolding lookup
empty-IsTable = record {
  entries = tt;
  distinct = tt;
  settled = λ p i. absurd i;
  exclusive = λ p q kp kq. absurd (unknown p kp);
}
  where
    unknown : (p : ProcessInfo) → Known [] [] p → ⊥
    unknown p (inl i) = i
    unknown p (inr (k, h)) = cc
