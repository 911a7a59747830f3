-- ===== src/Snapshot/Contents.antt =====
-- Go iterates over a map in no particular order: what a snapshot of pkg/objectfs/snapshot.go holds,
-- whatever the order of its association list, and why no operation shows that order.
use mathlib.Core.Quot
use mathlib.Core.Quot.{Quot, Quot-set}
use roommate_csi.Prelude.{
  ◌+◌, ◌≡◌, ◌∙◌, refl, sym, ap, subst, Option, none, some, is_some, List, [], ◌∷◌, arith,
}
use roommate_csi.Prelude.Bytes.{Bytes, Str, str_eq_iff, str_eq_refl}
use roommate_csi.Map.{Map, lookup, delete, IsDistinct, member}
use roommate_csi.Map.Laws.{lookup-delete, delete-IsDistinct}
use roommate_csi.Snapshot.{Snapshot, get, total, size, keys, with_changes}
use roommate_csi.Snapshot.Content.{
  merged, get-with_changes, with_changes-IsDistinct, length_of, total-delete,
}
use roommate_csi.Snapshot.Order.{keys-IsAscending, ascending_unique}

-- A Go map, as it is iterated over.
abbrev pub Listed : Type 0
Listed = (m : Map Bytes) × IsDistinct m

-- Both hold the same under every key.
abbrev pub IsSame : Listed → Listed → Type 0
IsSame (m, d) (n, e) = (k : Str) → lookup k m ≡ lookup k n

-- What is in the map, without an order.
abbrev pub Contents : Type 0
Contents = Quot IsSame

abbrev pub of_map : (m : Map Bytes) → IsDistinct m → Contents
of_map m d = Quot.mk (m, d)

value_of : Str → Contents → Option Bytes
value_of k = Quot.lift (hlevel) (λ m. lookup k m.0) (λ m n same. same k)

exact :
    {m n : Map Bytes} {d : IsDistinct m} {e : IsDistinct n}
    → of_map m d ≡ of_map n e
    → (k : Str) → lookup k m ≡ lookup k n
unfolding value_of
exact e k = ap (value_of k) e

lookup-none : (n : Map Bytes) → ((k : Str) → none ≡ lookup k n) → total n ≡ 0
unfolding lookup total
lookup-none [] none_there = refl
lookup-none ((k, v) ∷ n) none_there = absurd (ground (arith, none_there k, str_eq_refl k))

-- The sum of the sizes does not depend on the order.
total_same :
    (m n : Map Bytes)
    → IsDistinct m
    → IsDistinct n
    → ((k : Str) → lookup k m ≡ lookup k n)
    → total m ≡ total n
unfolding total lookup
total_same [] n d e same = sym (lookup-none n same)
total_same ((k, v) ∷ m) n (absent, d) e same =
    let there : lookup k n ≡ some v = ground (arith, same k, str_eq_refl k) in
    let rest =
      total_same m (delete k n) d (delete-IsDistinct k n e)
        λ j. ground (arith, same j, lookup-delete j k n, str_eq_iff k j) in
    let split : total (delete k n) + length_of (some v) ≡ total n =
      subst (λ o. total (delete k n) + length_of o ≡ total n) there (total-delete k n e) in
    omega (arith, rest, split)

keys_same :
    (s t : Snapshot)
    → IsDistinct s.entries
    → IsDistinct t.entries
    → ((k : Str) → get s k ≡ get t k)
    → keys s ≡ keys t
keys_same s t d e same =
    let (up, has) = keys-IsAscending s d in
    let (up', has') = keys-IsAscending t e in
    ascending_unique (keys s) (keys t) up up'
      λ k. has k ∙ ap (λ o. is_some o) (same k) ∙ sym (has' k)

merged_same :
    (s t : Snapshot) (set set' : Map Bytes) (del del' : List Str) (k : Str)
    → lookup k s.entries ≡ lookup k t.entries
    → lookup k set ≡ lookup k set'
    → member k del ≡ member k del'
    → merged set del k (get s k) ≡ merged set' del' k (get t k)
unfolding merged get
merged_same s t set set' del del' k held put cut = rw (held, put, cut) refl

-- Two maps with the same contents, changed by two maps with the same contents and two lists that
-- delete the same keys, cannot be told apart: the listing, the size and every value agree. So
-- neither the order that the API server's object was decoded in, nor that in which Go iterates
-- over it or over the change, shows.
pub order_unobservable :
    (s t : Snapshot) (set set' : Map Bytes) (del del' : List Str)
    → (ds : IsDistinct s.entries) (dt : IsDistinct t.entries)
    → (d : IsDistinct set) (d' : IsDistinct set') → of_map s.entries ds ≡ of_map t.entries dt
    → of_map set d ≡ of_map set' d'
    → ((k : Str) → member k del ≡ member k del')
    → (keys (with_changes s set del) ≡ keys (with_changes t set' del'))
      × (size (with_changes s set del) ≡ size (with_changes t set' del'))
      × ((k : Str) → get (with_changes s set del) k ≡ get (with_changes t set' del') k)
unfolding size get
order_unobservable s t set set' del del' ds dt d d' same same_set same_del =
    let s' = with_changes s set del in
    let t' = with_changes t set' del' in
    let ds' = with_changes-IsDistinct s set del ds in
    let dt' = with_changes-IsDistinct t set' del' dt in
    let holds : (k : Str) → get s' k ≡ get t' k = λ k.
      get-with_changes s set del k d
      ∙ merged_same s t set set' del del' k (exact same k) (exact same_set k) (same_del k)
      ∙ sym (get-with_changes t set' del' k d') in
    (keys_same s' t' ds' dt' holds, total_same s'.entries t'.entries ds' dt' holds, holds)
