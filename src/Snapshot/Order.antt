-- ===== src/Snapshot/Order.antt =====
-- `Keys` of pkg/objectfs/snapshot.go: which keys a listing shows, and in what order, which their set
-- determines.
use roommate_csi.Prelude.{
  ◌≡◌, ◌∙◌, refl, sym, ap, subst, true, false, ◌||◌, is_some, List, [], ◌∷◌, arith, Bool-cases, inl,
  inr,
}
use roommate_csi.Prelude.Bytes.{Bytes, Str, str_eq, str_eq_iff, str_eq_refl, str_ltb}
use roommate_csi.Map.{Map, lookup, IsDistinct, member}
use roommate_csi.Snapshot.{Snapshot, get, insert_sorted, sort_strings, map_keys, keys}

str_ltb_total : (j k : Str) → str_ltb j k ≡ false → str_eq j k ≡ false → str_ltb k j ≡ true
unfolding str_ltb str_eq
str_ltb_total [] [] h e = ground arith
str_ltb_total [] (b ∷ t) h e = ground arith
str_ltb_total (a ∷ s) [] h e = refl
str_ltb_total (a ∷ s) (b ∷ t) h e = ground (arith, str_ltb_total s t)

-- Each name comes before the next.
abbrev pub IsAscending : List Str → Type 0
IsAscending [] = Unit
IsAscending (j ∷ []) = Unit
IsAscending (j ∷ k ∷ ks) = (str_ltb j k ≡ true) × IsAscending (k ∷ ks)

IsAscending-tail : (j : Str) (js : List Str) → IsAscending (j ∷ js) → IsAscending js
IsAscending-tail j [] h = tt
IsAscending-tail j (k ∷ ks) h = h.1

insert_sorted-IsAscending :
    (k : Str) (js : List Str)
    → member k js ≡ false
    → IsAscending js
    → IsAscending (insert_sorted k js)
unfolding insert_sorted member
insert_sorted-IsAscending k [] m h = tt
insert_sorted-IsAscending k (j ∷ []) m h = ground (arith, str_ltb_total j k)
insert_sorted-IsAscending k (j ∷ i ∷ is) m h =
    ground (arith, str_ltb_total j k, insert_sorted-IsAscending k (i ∷ is) (ground arith) h.1)

member-insert_sorted :
    (i k : Str) (js : List Str) → member i (insert_sorted k js) ≡ str_eq k i || member i js
unfolding insert_sorted member
member-insert_sorted i k [] = refl
member-insert_sorted i k (j ∷ js) = ground (arith, member-insert_sorted i k js)

member-sort_strings : (i : Str) (ks : List Str) → member i (sort_strings ks) ≡ member i ks
unfolding sort_strings member
member-sort_strings i [] = refl
member-sort_strings i (k ∷ ks) =
    ground (arith, member-insert_sorted i k (sort_strings ks), member-sort_strings i ks)

member-map_keys : (i : Str) (m : Map Bytes) → member i (map_keys m) ≡ is_some (lookup i m)
unfolding map_keys member lookup
member-map_keys i [] = refl
member-map_keys i ((k, v) ∷ m) = ground (arith, member-map_keys i m)

sort_strings-IsAscending : (m : Map Bytes) → IsDistinct m → IsAscending (sort_strings (map_keys m))
unfolding sort_strings map_keys
sort_strings-IsAscending [] d = tt
sort_strings-IsAscending ((k, v) ∷ m) d =
    insert_sorted-IsAscending k (sort_strings (map_keys m))
      (ground (arith, member-sort_strings k (map_keys m), member-map_keys k m))
      (sort_strings-IsAscending m d.1)

-- The listing names the keys of the snapshot and no others, each once, in ascending byte order.
pub keys-IsAscending :
    (s : Snapshot)
    → IsDistinct s.entries
    → IsAscending (keys s) × ((k : Str) → member k (keys s) ≡ is_some (get s k))
unfolding keys get
keys-IsAscending s d = (
  sort_strings-IsAscending s.entries d,
  λ k. member-sort_strings k (map_keys s.entries) ∙ member-map_keys k s.entries,
)

str_ltb_irrefl : (s : Str) → str_ltb s s ≡ false
unfolding str_ltb
str_ltb_irrefl [] = refl
str_ltb_irrefl (b ∷ s) = ground (arith, str_ltb_irrefl s)

str_ltb_trans : (r s t : Str) → str_ltb r s ≡ true → str_ltb s t ≡ true → str_ltb r t ≡ true
unfolding str_ltb
str_ltb_trans r s [] lt lt' = absurd (ground arith)
str_ltb_trans r [] (c ∷ t) lt lt' = absurd (ground arith)
str_ltb_trans [] (b ∷ s) (c ∷ t) lt lt' = refl
str_ltb_trans (a ∷ r) (b ∷ s) (c ∷ t) lt lt' = ground (arith, str_ltb_trans r s t)

-- Every name behind the first of an ascending list comes after it.
ascending_above :
    (j : Str) (ks : List Str) (i : Str)
    → IsAscending (j ∷ ks)
    → member i ks ≡ true
    → str_ltb j i ≡ true
unfolding member
ascending_above j [] i up has = absurd (ground arith)
ascending_above j (k ∷ ks) i up has = elim (Bool-cases (str_eq k i)) [
  | inl same ↦ subst (λ x. str_ltb j x ≡ true) ((str_eq_iff k i).0 same) up.0
  | inr other ↦ str_ltb_trans j k i up.0 (ascending_above k ks i up.1 (ground arith))
]

ascending_fresh : (j : Str) (js : List Str) → IsAscending (j ∷ js) → member j js ≡ false
ascending_fresh j js up = elim (Bool-cases (member j js)) [
  | inr fresh ↦ fresh
  | inl has ↦ absurd (ground (arith, ascending_above j js j up has, str_ltb_irrefl j))
]

ascending_tails :
    (j : Str) (js ks : List Str)
    → IsAscending (j ∷ js)
    → IsAscending (j ∷ ks)
    → ((i : Str) → member i (j ∷ js) ≡ member i (j ∷ ks))
    → (i : Str) → member i js ≡ member i ks
unfolding member
ascending_tails j js ks up up' same i = elim (Bool-cases (str_eq j i)) [
  | inl this ↦
      subst (λ x. member x js ≡ member x ks) ((str_eq_iff j i).0 this)
        (ascending_fresh j js up ∙ sym (ascending_fresh j ks up'))
  | inr other ↦ ground (arith, same i)
]

ascending_heads :
    (j k : Str) (js ks : List Str)
    → IsAscending (j ∷ js)
    → IsAscending (k ∷ ks)
    → ((i : Str) → member i (j ∷ js) ≡ member i (k ∷ ks))
    → j ≡ k
unfolding member
ascending_heads j k js ks up up' same = elim (Bool-cases (str_eq j k)) [
  | inl this ↦ (str_eq_iff j k).0 this
  | inr other ↦
      let ahead : str_ltb k j ≡ true =
        ascending_above k ks j up'
          (ground (arith, same j, str_eq_refl j, str_eq_iff j k, str_eq_iff k j)) in
      let behind : str_ltb j k ≡ true =
        ascending_above j js k up (ground (arith, same k, str_eq_refl k)) in
      absurd (ground (arith, str_ltb_trans j k j behind ahead, str_ltb_irrefl j))
]

-- An ascending list is given by its names.
pub ascending_unique :
    (js ks : List Str)
    → IsAscending js
    → IsAscending ks
    → ((i : Str) → member i js ≡ member i ks)
    → js ≡ ks
unfolding member
ascending_unique [] [] up up' same = refl
ascending_unique [] (k ∷ ks) up up' same = absurd (ground (arith, same k, str_eq_refl k))
ascending_unique (j ∷ js) [] up up' same = absurd (ground (arith, same j, str_eq_refl j))
ascending_unique (j ∷ js) (k ∷ ks) up up' same =
    let this = ascending_heads j k js ks up up' same in
    let up_j : IsAscending (j ∷ ks) = subst (λ x. IsAscending (x ∷ ks)) (sym this) up' in
    let same_j : (i : Str) → member i (j ∷ js) ≡ member i (j ∷ ks) =
      subst (λ x. (i : Str) → member i (j ∷ js) ≡ member i (x ∷ ks)) (sym this) same in
    subst (λ x. j ∷ js ≡ x ∷ ks) this
      (ap (λ l. j ∷ l)
        (ascending_unique js ks (IsAscending-tail j js up) (IsAscending-tail k ks up')
          (ascending_tails j js ks up up_j same_j)))
