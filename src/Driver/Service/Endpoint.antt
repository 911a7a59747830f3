-- ===== src/Driver/Service/Endpoint.antt =====
-- Which endpoints `Serve` of pkg/driver/server.go accepts.
use roommate_csi.Prelude.{
  ◌≡◌, refl, sym, subst, some, ◌∙◌, ap, Bool, true, false, [], ◌∷◌, ◌++◌, length, length-append,
  drop, Bool-cases, inl, inr, arith, ◌⊎◌, ==_iff, if-true, if-false,
}
use roommate_csi.Prelude.Bytes.{Str, str_eq, str_eq_iff, str_eq_refl}
use roommate_csi.Mounts.{Node, Disk, Kernel}
use roommate_csi.Driver.{Calls}
use roommate_csi.Driver.Service.{
  Identity, Session, Net, Removal, removed, absent, in_place, Served, ServeFault, listen_failed,
  remove_failed, ending_fault, listening, answer_all, has_prefix, trim_prefix, scheme, bad_endpoint,
  failing, unlinked, serve,
}

has_prefix-append : (prefix s : Str) → has_prefix (prefix ++ s) prefix ≡ true
unfolding has_prefix
has_prefix-append [] s = refl
has_prefix-append (b ∷ prefix) s = ground (arith, has_prefix-append prefix s)

drop-append : (prefix s : Str) → drop (length prefix) (prefix ++ s) ≡ s
drop-append [] s = refl
drop-append (b ∷ prefix) s = drop-append prefix s

has_prefix_split :
    (s prefix : Str) → has_prefix s prefix ≡ true → s ≡ prefix ++ drop (length prefix) s
unfolding has_prefix
has_prefix_split s [] has = refl
has_prefix_split [] (p ∷ prefix) has = absurd (ground arith)
has_prefix_split (b ∷ s) (p ∷ prefix) has =
    rw ((==_iff b p).0 (ground arith)) (ap (λ t. p ∷ t) (has_prefix_split s prefix (ground arith)))

trim_prefix-append : (prefix s : Str) → trim_prefix (prefix ++ s) prefix ≡ s
unfolding trim_prefix
trim_prefix-append prefix s = if-true _ _ _ (has_prefix-append prefix s) ∙ drop-append prefix s

true_or_false : {b : Bool} → b ≡ true → b ≡ false → ⊥
true_or_false held failed = ground arith

trimmed :
    (endpoint : Str)
    → has_prefix endpoint scheme ≡ true
    → trim_prefix endpoint scheme ≡ drop (length scheme) endpoint
unfolding trim_prefix
trimmed endpoint has = if-true _ _ _ has

untrimmed :
    (endpoint : Str) → has_prefix endpoint scheme ≡ false → trim_prefix endpoint scheme ≡ endpoint
unfolding trim_prefix
untrimmed endpoint bare = if-false _ _ _ bare

trim_prefix-other :
    (endpoint : Str)
    → has_prefix endpoint scheme ≡ true
    → str_eq (trim_prefix endpoint scheme) endpoint ≡ false
trim_prefix-other endpoint has = elim (Bool-cases (str_eq (trim_prefix endpoint scheme) endpoint)) [
  | inr other ↦ other
  | inl same ↦
      let whole = ap length ((str_eq_iff (trim_prefix endpoint scheme) endpoint).0 same) in
      let shorter = ap length (trimmed endpoint has) in
      absurd (
        omega (
          arith,
          whole,
          shorter,
          ap length (has_prefix_split endpoint scheme has),
          length-append scheme (drop (length scheme) endpoint),
        ))
]

module _ {W : Type 0} (disk : Disk W) (kernel : Kernel W) (calls : Calls W) (net : Net W) where
  -- Nothing is answered.
  abbrev pub Stops : ServeFault → Node W → Served × Node W → Type 0
  Stops e n (served, m) = (served.replies ≡ []) × (served.fault ≡ some e) × (m ≡ n)

  -- With a socket that listens, the calls are answered in their order until the end of the session.
  abbrev pub Listens : Identity → Session → Bool × Node W → Served × Node W → Type 0
  Listens id session (fine, n) (served, m) =
      ((fine ≡ false) × Stops listen_failed n (served, m))
      ⊎ ((fine ≡ true)
          × (served.replies ≡ (answer_all disk kernel calls net id session.incoming n).0)
          × (served.fault ≡ ending_fault session.ending)
          × (m ≡ (answer_all disk kernel calls net id session.incoming n).1))

  -- The stale socket at the path could not be removed, or is gone and the path is listened at.
  abbrev pub Opens : Identity → Session → Str → Removal × Node W → Served × Node W → Type 0
  Opens id session path (r, n) s =
      ((r ≡ in_place) × Stops remove_failed n s)
      ⊎ (((r ≡ removed) ⊎ (r ≡ absent)) × Listens id session (net.listen path n) s)

  -- The endpoint is a path behind "unix://", and it is served there, after the stale socket at that
  -- path is removed.
  abbrev pub IsServed : Str → Identity → Session → Node W → Type 0
  IsServed endpoint id session n =
      (path : Str) × (endpoint ≡ scheme ++ path)
      × Opens id session path (net.remove_socket path n)
          (serve disk kernel calls net endpoint id session n)

  listening-Listens :
      (id : Identity) (session : Session) (r : Bool × Node W)
      → Listens id session r (listening disk kernel calls net id session r.0 r.1)
  listening-Listens id session (false, n) = inl (refl, (refl, refl, refl))
  listening-Listens id session (true, n) = inr (refl, refl, refl, refl)

  unlinked-Opens :
      (id : Identity) (session : Session) (path : Str) (r : Removal × Node W)
      → Opens id session path r (unlinked disk kernel calls net id session path r.0 r.1)
  unlinked-Opens id session path (in_place, n) = inl (refl, (refl, refl, refl))
  unlinked-Opens id session path (removed, n) =
      inr (inl refl, listening-Listens id session (net.listen path n))
  unlinked-Opens id session path (absent, n) =
      inr (inr refl, listening-Listens id session (net.listen path n))

  serve_prefixed :
      (endpoint : Str) (id : Identity) (session : Session) (n : Node W)
      → has_prefix endpoint scheme ≡ true
      → let path = drop (length scheme) endpoint in
        serve disk kernel calls net endpoint id session n
        ≡ unlinked disk kernel calls net id session path
            (net.remove_socket path n).0
            (net.remove_socket path n).1
  unfolding serve
  serve_prefixed endpoint id session n has =
      if-false _ _ _ (trim_prefix-other endpoint has)
      ∙ ap
          (λ path.
            unlinked disk kernel calls net id session path (net.remove_socket path n).0
              (net.remove_socket path n).1)
          (trimmed endpoint has)

  -- The endpoint is no such path, and the call fails without touching anything.
  abbrev pub IsRefused : Str → Identity → Session → Node W → Type 0
  IsRefused endpoint id session n =
      ((path : Str) → ¬ (endpoint ≡ scheme ++ path))
      × (serve disk kernel calls net endpoint id session n
          ≡ failing disk kernel calls net bad_endpoint n)

  -- For an endpoint that is a path behind "unix://", the stale socket at that path is removed. If it
  -- cannot be removed, the call fails; if it is gone, the path is listened at, and unless that fails
  -- the calls are answered in their order. For any other endpoint the call fails, and nothing is
  -- touched.
  pub serve_endpoint :
      (endpoint : Str) (id : Identity) (session : Session) (n : Node W)
      → IsServed endpoint id session n ⊎ IsRefused endpoint id session n
  unfolding serve
  serve_endpoint endpoint id session n = elim (Bool-cases (has_prefix endpoint scheme)) [
    | inl has ↦ inl (
      drop (length scheme) endpoint,
      has_prefix_split endpoint scheme has,
      let path = drop (length scheme) endpoint in
          subst (Opens id session path (net.remove_socket path n))
            (sym (serve_prefixed endpoint id session n has))
            (unlinked-Opens id session path (net.remove_socket path n)),
    )
    | inr bare ↦ inr (
      λ path e.
          true_or_false (ap (λ x. has_prefix x scheme) e ∙ has_prefix-append scheme path) bare,
      if-true _ _ _ (ap (λ x. str_eq x endpoint) (untrimmed endpoint bare) ∙ str_eq_refl endpoint),
    )
  ]
