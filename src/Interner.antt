-- ===== src/Interner.antt =====
-- src/common/intern.c: the global table of strings. The static variables are one state: the map, `none` until
-- it has been initialised. `new_str` is the address of the copy that is made of a new string, and
-- `key_copy` that of the copy that the map makes of its key. A pointer result stands beside the
-- state; `none` is a search in the map that does not end.
use alkyl.Prelude.{ℕ, Bool, true, Option, none, some, ◌==◌, if◌then◌else◌, Str, Run, ok, fault}
use alkyl.Hashmap.Map.{HashMap, hashmap_init, and_then}
use alkyl.Hashmap.Ops.{hashmap_get, hashmap_get_n, hashmap_put}
pub mod Canonical

unfoldable pub ensure_intern_inited : Option HashMap → HashMap
ensure_intern_inited none = hashmap_init true 1024
ensure_intern_inited (some m) = m

module _ (text_of : ℕ → Str) where
  -- The rest of both functions, after the lookup in the table.
  unfoldable pub intern_found : HashMap → ℕ → ℕ → ℕ → Option (ℕ × Option HashMap)
  intern_found m existing new_str key_copy =
      if existing == 0
      then and_then (hashmap_put text_of m new_str key_copy new_str) (λ m1. some (new_str, some m1))
      else some (existing, some m)

  unfoldable pub intern_string : Option HashMap → ℕ → ℕ → ℕ → Option (ℕ × Option HashMap)
  intern_string table str new_str key_copy =
      if str == 0
      then some (0, table)
      else let m = ensure_intern_inited table in
        and_then (hashmap_get text_of m str) (λ existing. intern_found m existing new_str key_copy)

  -- The bytes in the buffer are `text`.
  unfoldable pub intern_run : HashMap → Run ℕ → ℕ → ℕ → Option (Run (ℕ × Option HashMap))
  intern_run m (fault e) new_str key_copy = some (fault e)
  intern_run m (ok existing) new_str key_copy =
      and_then (intern_found m existing new_str key_copy) (λ r. some (ok r))

  unfoldable pub intern_string_len :
      Option HashMap → ℕ → Str → ℕ → ℕ → Option (Run (ℕ × Option HashMap))
  intern_string_len table str text new_str key_copy =
      if str == 0
      then some (ok (0, table))
      else let m = ensure_intern_inited table in
        and_then (hashmap_get_n text_of m str text) (λ r. intern_run m r new_str key_copy)
