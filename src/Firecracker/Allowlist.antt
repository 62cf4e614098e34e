-- ===== src/Firecracker/Allowlist.antt =====
-- The addresses of an allowlist in crates/hyperbox-firecracker/src/backend.rs.
use hyperbox.Prelude.{
  Option, none, some, List, [], ◌∷◌, ◌++◌, Text, codes, text_eq, ◌==◌, is_empty, if◌then◌else◌,
}
use hyperbox.Core.Error.{Result, ok, err, HyperboxError, invalid_config, execution_failed}
use hyperbox.Core.Allowlist.{AllowlistEntry, is_wildcard, as_str, to_pattern_string}
use hyperbox.Network.Firewall.{run_plan, build_allowlist_population_plan}
use hyperbox.Server.Monad.{M, ◌>>=◌, ◌>>◌, pure, throw, lift, attempt}
use hyperbox.Firecracker.{Host, Firecracker, on_host, or_fail, failed}

-- `domains.iter().find(|domain| domain.is_wildcard())`
unfoldable pub find_wildcard : List AllowlistEntry → Option AllowlistEntry
find_wildcard [] = none
find_wildcard (entry ∷ entries) =
    let rest = find_wildcard entries in if is_wildcard entry then some entry else rest

unfoldable pub wildcard_refused : AllowlistEntry → HyperboxError
wildcard_refused entry = invalid_config (
    codes "firecracker allowlist does not support wildcard domain `"
    ++ (to_pattern_string entry ++ codes "` yet"))

abbrev pub no_wildcard : Option AllowlistEntry → Result HyperboxError (Unit {0})
no_wildcard none = ok tt
no_wildcard (some entry) = err (wildcard_refused entry)

module _ {F : Type 0} (host : Host F) where
  -- The insertion into the `BTreeSet`
  unfoldable pub insert_ip : Text → List Text → List Text
  insert_ip ip [] = ip ∷ []
  insert_ip ip (other ∷ ips) =
      let rest = insert_ip ip ips in
      if other == ip
      then other ∷ ips
      else if host.ip_ltb ip other
      then ip ∷ other ∷ ips
      else other ∷ rest

  unfoldable pub insert_ips : List Text → List Text → List Text
  insert_ips [] resolved = resolved
  insert_ips (ip ∷ ips) resolved = insert_ips ips (insert_ip ip resolved)

  unfoldable pub resolve_each : List AllowlistEntry → List Text → M (Firecracker F) (List Text)
  resolve_each [] resolved = pure resolved
  resolve_each (entry ∷ entries) resolved = do
    ips ←
        or_fail (failed (codes "resolve allowlist domain `" ++ (as_str entry ++ codes "`")))
          (on_host (host.lookup_host (as_str entry)))
    resolve_each entries (insert_ips ips resolved)

  unfoldable pub resolve_allowlist_ips : List AllowlistEntry → M (Firecracker F) (List Text)
  resolve_allowlist_ips domains = do
    lift (no_wildcard (find_wildcard domains))
    resolved ← resolve_each domains []
    if is_empty resolved
        then throw (execution_failed (codes "allowlist resolution returned zero IP addresses"))
        else pure resolved

  unfoldable pub populate_allowlist_set : Text → List Text → M (Firecracker F) (Unit {0})
  populate_allowlist_set vm_id ips =
      or_fail (failed (codes "populate allowlist ipset"))
        (on_host (run_plan host.run (build_allowlist_population_plan vm_id ips)))

  unfoldable pub refresh : Text → List AllowlistEntry → M (Firecracker F) (Unit {0})
  refresh vm_id domains = do ips ← resolve_allowlist_ips domains; populate_allowlist_set vm_id ips

  -- A turn of the task that refreshes the addresses: its errors are logged.
  unfoldable pub refresh_turn : Text → List AllowlistEntry → M (Firecracker F) (Unit {0})
  refresh_turn vm_id domains = attempt (refresh vm_id domains) >> pure tt
