-- ===== src/MyIo/Closed.antt =====
-- A pair of descriptors that is made or closed, in `desInfoMap`.
use y_modem_protocol.Base.{
  ℕ, ◌≡◌, ◌≢◌, refl, sym, ap, ◌∙◌, ◌==◌, ==_ne, ==_iff, none, some, Bool-cases, inl, inr, ◌⊎◌,
  arith, subst,
}
use y_modem_protocol.MyIo.Defs.{paired, peer_closed, Kernel, SocketInfo, new_info, closing}
use y_modem_protocol.MyIo.Calls.{DesInfoMap, insert, erase, close_pair, close_at, my_socketpair}
use y_modem_protocol.MyIo.Pairs.{
  HasPartner, IsPaired, KeepsPaired, insert_here, insert_apart, some_inj,
}

module _ {K : Type 0} (m : DesInfoMap K) where
  erase_other : (des e : ℕ) (u : SocketInfo K) → erase des m e ≡ some u → (e ≢ des) × (m e ≡ some u)
  unfolding erase
  erase_other des e u h = ground arith

  erase_apart : (des e : ℕ) → e ≢ des → erase des m e ≡ m e
  unfolding erase
  erase_apart des e h = rw (==_ne e des h) refl

  -- The partner in a pair is known from either side.
  partner-HasPartner :
      (d e : ℕ) (s t : SocketInfo K)
      → m d ≡ some s
      → m e ≡ some t
      → (q : HasPartner m e t) → q.partner ≡ d
      → s.pair ≡ paired e
  partner-HasPartner d e s t at_d at_e q is =
      ap (λ x. x.pair) (some_inj s q.info (sym at_d ∙ ap m (sym is) ∙ q.there)) ∙ q.back

  insert_other :
      (d e : ℕ) (s u : SocketInfo K)
      → insert d s m e ≡ some u
      → ((e ≡ d) × (s ≡ u)) ⊎ ((e ≢ d) × (m e ≡ some u))
  insert_other d e s u h = elim (Bool-cases (e == d)) [
    | inl it ↦
        let is : e ≡ d = (==_iff e d).0 it in
        inl (is, some_inj s u (sym (insert_here d s m) ∙ ap (insert d s m) (sym is) ∙ h))
    | inr other ↦
        let apart : e ≢ d = λ q. ground (arith, (==_iff e d).1 q) in
        inr (apart, sym (insert_apart d e s m apart) ∙ h)
  ]

taken :
    {K : Type 0} (m : DesInfoMap K) (a b : ℕ) (s : SocketInfo K) → m a ≡ some s → a ≡ b → m b ≢ none
taken m a b s there is free = absurd_some (sym there ∙ ap m is ∙ free)
  where
    absurd_some : some s ≢ none
    absurd_some e = cc

closing-pair :
    {K : Type 0} (sys : Kernel K) (s t : SocketInfo K) (e : ℕ)
    → s.pair ≡ paired e
    → ((closing sys s t).1).pair ≡ peer_closed
unfolding closing
closing-pair sys s t e h = rw h refl

paired_inj : (d e : ℕ) → paired d ≡ paired e → d ≡ e
paired_inj d e h = cc

module _ {K : Type 0} (m : DesInfoMap K) (p : IsPaired m) (des : ℕ) (s : SocketInfo K)
    (found : m des ≡ some s) where
  -- A pair that has nothing to do with `des` is still there without it.
  erased-HasPartner :
      (e : ℕ) (u : SocketInfo K)
      → m e ≡ some u
      → s.pair ≢ paired e
      → HasPartner m e u
      → HasPartner (erase des m) e u
  erased-HasPartner e u at_e other q = record {
    partner = q.partner;
    info = q.info;
    names = q.names;
    there =
        erase_apart m des q.partner (λ is. other (partner-HasPartner m des e s u found at_e q is))
        ∙ q.there;
    back = q.back;
    apart = q.apart;
  }

  -- The second of a pair is closed.
  close_second : s.pair ≡ peer_closed → IsPaired (erase des m)
  close_second gone e u h =
      let (apart, at_e) = erase_other m des e u h in second e u at_e (p e u at_e)
    where
      second :
          (e : ℕ) (u : SocketInfo K)
          → m e ≡ some u
          → (u.pair ≡ peer_closed) ⊎ HasPartner m e u
          → (u.pair ≡ peer_closed) ⊎ HasPartner (erase des m) e u
      second e u at_e (inl away) = inl away
      second e u at_e (inr q) = inr (erased-HasPartner e u at_e (λ x. cc) q)

  -- The first of a pair is closed, and `t` is what becomes of its partner.
  close_first :
      (q : HasPartner m des s) (t : SocketInfo K)
      → t.pair ≡ peer_closed
      → IsPaired (insert q.partner t (erase des m))
  unfolding erased-HasPartner
  close_first q t gone e u h = elim (insert_other (erase des m) q.partner e t u h) [
    | inl (is, new) ↦ inl (ap (λ x. x.pair) (sym new) ∙ gone)
    | inr (apart, old) ↦
        let (away, at_e) = erase_other m des e u old in first apart away at_e (p e u at_e)
  ]
    where
      first :
          e ≢ q.partner
          → e ≢ des
          → m e ≡ some u
          → (u.pair ≡ peer_closed) ⊎ HasPartner m e u
          → (u.pair ≡ peer_closed) ⊎ HasPartner (insert q.partner t (erase des m)) e u
      first apart away at_e (inl x) = inl x
      first apart away at_e (inr r) =
          let base =
            erased-HasPartner e u at_e (λ x. apart (paired_inj e q.partner (sym x ∙ q.names))) r in
          let back_of : r.partner ≡ q.partner → q.info.pair ≡ paired e =
            λ is. partner-HasPartner m q.partner e q.info u q.there at_e r is in
          inr (record {
            partner = base.partner;
            info = base.info;
            names = base.names;
            there =
                insert_apart q.partner base.partner t (erase des m)
                  (λ is. away (paired_inj e des (sym (back_of is) ∙ q.back)))
                ∙ base.there;
            back = base.back;
            apart = base.apart;
          })

  pub close_pair-KeepsPaired :
      (sys : Kernel K)
      → (s.pair ≡ peer_closed) ⊎ HasPartner m des s
      → KeepsPaired (close_pair sys (erase des m) s s.pair)
  close_pair-KeepsPaired sys (inl gone) =
      subst (λ x. KeepsPaired (close_pair sys (erase des m) s x)) (sym gone) (close_second gone)
  close_pair-KeepsPaired sys (inr q) =
      subst (λ x. KeepsPaired (close_pair sys (erase des m) s x)) (sym q.names)
        (subst (λ o. KeepsPaired (close_at sys s q.partner (erase des m) o))
          (sym (erase_apart m des q.partner q.apart ∙ q.there))
          (close_first q ((closing sys s q.info).1) (closing-pair sys s q.info q.partner q.names)))

module _ {K : Type 0} (m : DesInfoMap K) (p : IsPaired m) where
  pub new_pair :
      (d e : ℕ) (k l : K) → m d ≡ none → m e ≡ none → d ≢ e → IsPaired (my_socketpair d e k l m)
  unfolding my_socketpair
  new_pair d e k l free_d free_e apart f u h =
      elim (insert_other (insert d (new_info e k) m) e f (new_info d l) u h) [
        | inl (is, new) ↦ inr (
            subst (λ x. HasPartner (my_socketpair d e k l m) x u) (sym is)
              (subst (λ x. HasPartner (my_socketpair d e k l m) e x) new
                (record {
                  partner = d;
                  info = new_info e k;
                  names = refl;
                  there = at_d;
                  back = refl;
                  apart = apart;
                })))
        | inr (far_e, mid) ↦ elim (insert_other m d f (new_info e k) u mid) [
          | inl (is, new) ↦ inr (
              subst (λ x. HasPartner (my_socketpair d e k l m) x u) (sym is)
                (subst (λ x. HasPartner (my_socketpair d e k l m) d x) new
                  (record {
                    partner = e;
                    info = new_info d l;
                    names = refl;
                    there = insert_here e (new_info d l) (insert d (new_info e k) m);
                    back = refl;
                    apart = λ x. apart (sym x);
                  })))
          | inr (far_d, old) ↦ elim (p f u old) [
            | inl gone ↦ inl gone
            | inr q ↦ inr (record {
              partner = q.partner;
              info = q.info;
              names = q.names;
              there =
                  insert_apart e q.partner (new_info d l) (insert d (new_info e k) m)
                    (λ is. taken m q.partner e q.info q.there is free_e)
                  ∙ insert_apart d q.partner (new_info e k) m
                      (λ is. taken m q.partner d q.info q.there is free_d)
                  ∙ q.there;
              back = q.back;
              apart = q.apart;
            })
          ]
        ]
      ]
    where
      at_d : my_socketpair d e k l m d ≡ some (new_info e k)
      at_d =
          insert_apart e d (new_info d l) (insert d (new_info e k) m) apart
          ∙ insert_here d (new_info e k) m
