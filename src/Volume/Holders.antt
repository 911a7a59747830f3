-- ===== src/Volume/Holders.antt =====
-- `NewLease` of pkg/objectfs/volume.go: every handle locks under an identity of its own.
use roommate_csi.Prelude.{ℕ, ◌+◌, ◌^◌, ◌<◌, ◌≡◌, ◌≢◌, ap, true, false, [], ◌∷◌, ◌++◌, arith, All}
use roommate_csi.Prelude.Bytes.{Str}
use roommate_csi.Number.{format_uint, parse_uint}
use roommate_csi.Number.RoundTrip.{parse_uint-format_uint}
use roommate_csi.State.{State}
use roommate_csi.Lease.{manager}
use roommate_csi.Volume.{Volume, holder_of, new_lease}

-- A text in front of its first colon.
abbrev pub HasNoColon : Str → Type 0
HasNoColon = All (λ c. c ≢ b':')

split_at_colon :
    (u v s t : Str)
    → HasNoColon u
    → HasNoColon v
    → u ++ (b':' ∷ s) ≡ v ++ (b':' ∷ t)
    → (u ≡ v) × (s ≡ t)
split_at_colon [] [] s t hu hv e = ground arith
split_at_colon [] (b ∷ v) s t hu hv e = absurd (hv.0 (ground arith))
split_at_colon (a ∷ u) [] s t hu hv e = absurd (hu.0 (ground arith))
split_at_colon (a ∷ u) (b ∷ v) s t hu hv e =
    ground (arith, split_at_colon u v s t hu.1 hv.1 (ground arith))

format_uint_inj : (a b : ℕ) → a < 2 ^ 64 → b < 2 ^ 64 → format_uint a ≡ format_uint b → a ≡ b
format_uint_inj a b ha hb e =
    cc (parse_uint-format_uint a ha, parse_uint-format_uint b hb, ap (parse_uint 10 64) e)

-- Two lock holders have the same identity only if they are the same handle of the same pod. A pod's
-- UID is taken to hold no colon, and sequence numbers are 64-bit numbers.
pub holder_of_inj :
    (u v : Str) (a b : ℕ)
    → HasNoColon u
    → HasNoColon v
    → a < 2 ^ 64
    → b < 2 ^ 64
    → holder_of u a ≡ holder_of v b
    → (u ≡ v) × (a ≡ b)
unfolding holder_of
holder_of_inj u v a b hu hv ha hb e =
    let parts = split_at_colon u v (format_uint a) (format_uint b) hu hv e in
    (parts.0, format_uint_inj a b ha hb parts.1)

-- Until 2^64 - 1 leases have been handed out, a new lease takes the next number; its manager holds
-- nothing, shares the mutex of the volume and carries the identity of that number; and no other
-- manager is touched.
pub new_lease_lem :
    {W : Type 0} (vol : Volume) (s : State W)
    → s.holder_seq + 1 < 2 ^ 64
    → ((new_lease vol s).0 ≡ s.holder_seq + 1)
      × ((new_lease vol s).1.holder_seq ≡ s.holder_seq + 1)
      × ((manager (s.holder_seq + 1) (new_lease vol s).1).holder
          ≡ holder_of vol.pod_uid (s.holder_seq + 1))
      × ((manager (s.holder_seq + 1) (new_lease vol s).1).held ≡ false)
      × ((manager (s.holder_seq + 1) (new_lease vol s).1).has_local ≡ true)
      × ((j : ℕ) → j ≢ s.holder_seq + 1 → manager j (new_lease vol s).1 ≡ manager j s)
unfolding new_lease
new_lease_lem vol s fits =
    (ground arith, ground arith, ground arith, ground arith, ground arith, λ j other. ground arith)
