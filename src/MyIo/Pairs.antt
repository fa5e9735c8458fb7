-- ===== src/MyIo/Pairs.antt =====
-- The two descriptors of a socket pair name each other in `desInfoMap`.
use y_modem_protocol.Base.{
  ℕ, ◌≡◌, ◌≢◌, refl, sym, ap, ◌∙◌, ◌==◌, ==_refl, ==_ne, ==_iff, List, some, Bool-cases, inl, inr,
  ◌⊎◌, arith, subst,
}
use y_modem_protocol.MyIo.Defs.{Kernel, paired, peer_closed, SocketInfo, draining, writing, reading}
use y_modem_protocol.MyIo.Steps.{info_of, drained}
use y_modem_protocol.MyIo.Calls.{DesInfoMap, Called, member, system, undefined, insert}

module _ {K : Type 0} where
  -- The descriptor `d` has a partner in the map, which has `d` as its partner.
  pub record HasPartner (m : DesInfoMap K) (d : ℕ) (s : SocketInfo K) : Type 0 where
    pub partner : ℕ
    pub info : SocketInfo K
    pub names : s.pair ≡ paired partner
    pub there : m partner ≡ some info
    pub back : info.pair ≡ paired d
    pub apart : partner ≢ d

  -- Every descriptor in the map has a partner, or knows that its partner is closed.
  abbrev pub IsPaired : DesInfoMap K → Type 0
  IsPaired m = (d : ℕ) (s : SocketInfo K) → m d ≡ some s → (s.pair ≡ peer_closed) ⊎ HasPartner m d s

  -- A call leaves such a map behind, and is defined.
  abbrev pub KeepsPaired : {R : Type 0} → Called K R → Type 0
  KeepsPaired (member r m) = IsPaired m
  KeepsPaired (system m) = IsPaired m
  KeepsPaired undefined = ⊥

  pub insert_here : (d : ℕ) (s : SocketInfo K) (m : DesInfoMap K) → insert d s m d ≡ some s
  unfolding insert
  insert_here d s m = rw (==_refl d) refl

  pub insert_apart : (d e : ℕ) (s : SocketInfo K) (m : DesInfoMap K) → e ≢ d → insert d s m e ≡ m e
  unfolding insert
  insert_apart d e s m h = rw (==_ne e d h) refl

  pub some_inj : (s t : SocketInfo K) → some s ≡ some t → s ≡ t
  some_inj s t e = cc

  HasPartner-pair :
      (m : DesInfoMap K) (d : ℕ) (s t : SocketInfo K)
      → t.pair ≡ s.pair
      → HasPartner m d s
      → HasPartner m d t
  HasPartner-pair m d s t same p = record {
    partner = p.partner;
    info = p.info;
    names = same ∙ p.names;
    there = p.there;
    back = p.back;
    apart = p.apart;
  }

  -- A change of an object that leaves `pair` alone.
  insert-HasPartner :
      (m : DesInfoMap K) (d e : ℕ) (s t : SocketInfo K) (u : SocketInfo K)
      → m d ≡ some s
      → t.pair ≡ s.pair
      → HasPartner m e u
      → HasPartner (insert d t m) e u
  insert-HasPartner m d e s t u found same p = elim (Bool-cases (p.partner == d)) [
    | inl it ↦
        let is : p.partner ≡ d = (==_iff p.partner d).0 it in
        record {
          partner = p.partner;
          info = t;
          names = p.names;
          there = subst (λ x. insert d t m x ≡ some t) (sym is) (insert_here d t m);
          back =
              same
              ∙ ap (λ x. x.pair) (some_inj s p.info (sym found ∙ ap m (sym is) ∙ p.there))
              ∙ p.back;
          apart = p.apart;
        }
    | inr other ↦ record {
      partner = p.partner;
      info = p.info;
      names = p.names;
      there =
          insert_apart d p.partner t m (λ q. ground (arith, (==_iff p.partner d).1 q)) ∙ p.there;
      back = p.back;
      apart = p.apart;
    }
  ]

  pub insert-IsPaired :
      (m : DesInfoMap K) (d : ℕ) (s t : SocketInfo K)
      → m d ≡ some s
      → t.pair ≡ s.pair
      → IsPaired m
      → IsPaired (insert d t m)
  insert-IsPaired m d s t found same p e u at_e = elim (Bool-cases (e == d)) [
    | inl it ↦
        let is : e ≡ d = (==_iff e d).0 it in
        let new : t ≡ u =
          some_inj t u (sym (insert_here d t m) ∙ ap (insert d t m) (sym is) ∙ at_e) in
        let kept : u.pair ≡ s.pair = ap (λ x. x.pair) (sym new) ∙ same in
        changed kept is (p d s found)
    | inr other ↦
        let old : m e ≡ some u =
          sym (insert_apart d e t m (λ q. ground (arith, (==_iff e d).1 q))) ∙ at_e in
        unchanged (p e u old)
  ]
    where
      unchanged :
          (u.pair ≡ peer_closed) ⊎ HasPartner m e u
          → (u.pair ≡ peer_closed) ⊎ HasPartner (insert d t m) e u
      unchanged (inl gone) = inl gone
      unchanged (inr q) = inr (insert-HasPartner m d e s t u found same q)

      changed :
          u.pair ≡ s.pair
          → e ≡ d
          → (s.pair ≡ peer_closed) ⊎ HasPartner m d s
          → (u.pair ≡ peer_closed) ⊎ HasPartner (insert d t m) e u
      changed kept is (inl gone) = inl (kept ∙ gone)
      changed kept is (inr q) = inr (
          subst (λ x. HasPartner (insert d t m) x u) (sym is)
            (insert-HasPartner m d d s t u found same (HasPartner-pair m d s u kept q)))

  -- One member function after another leaves `pair` alone.
  pub draining-pair : (s : SocketInfo K) → (drained (draining s)).pair ≡ s.pair
  unfolding draining
  draining-pair s = ground arith

  module _ (sys : Kernel K) where
    pub writing-pair : (bytes : List ℕ) (s : SocketInfo K) → (writing sys bytes s).pair ≡ s.pair
    unfolding writing
    writing-pair bytes s = ground arith

    pub reading-pair :
        (n min : ℕ) (s : SocketInfo K) → (info_of (reading sys n min s)).pair ≡ s.pair
    unfolding reading
    reading-pair n min s = ground arith
