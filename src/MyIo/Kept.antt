-- ===== src/MyIo/Kept.antt =====
-- Every call keeps the pairs of `desInfoMap`.
use y_modem_protocol.Base.{ℕ, ◌≡◌, ◌≢◌, refl, sym, List, Option, none, some, inl, inr, ◌⊎◌, subst}
use y_modem_protocol.MyIo.Defs.{Kernel, peer_closed, SocketInfo, draining, writing, reading}
use y_modem_protocol.MyIo.Steps.{info_of, drained}
use y_modem_protocol.MyIo.Calls.{
  DesInfoMap, drain_pair, drain_at, drain_found, close_found, read_found, write_pair, write_at_info,
  write_found, my_socketpair, my_tcdrain, my_close, my_readcond, my_write,
}
use y_modem_protocol.MyIo.Pairs.{
  HasPartner, IsPaired, KeepsPaired, insert-IsPaired, draining-pair, writing-pair, reading-pair,
}
use y_modem_protocol.MyIo.Closed.{close_pair-KeepsPaired, new_pair}

module _ {K : Type 0} (m : DesInfoMap K) (p : IsPaired m) where
  drain_pair-KeepsPaired :
      (des : ℕ) (s : SocketInfo K)
      → (s.pair ≡ peer_closed) ⊎ HasPartner m des s
      → KeepsPaired (drain_pair m s s.pair)
  drain_pair-KeepsPaired des s (inl gone) = subst (λ x. KeepsPaired (drain_pair m s x)) (sym gone) p
  drain_pair-KeepsPaired des s (inr q) =
      subst (λ x. KeepsPaired (drain_pair m s x)) (sym q.names)
        (subst (λ o. KeepsPaired (drain_at q.partner m o)) (sym q.there)
          (insert-IsPaired m q.partner q.info (drained (draining q.info)) q.there
            (draining-pair q.info) p))

  drain_found-KeepsPaired :
      (des : ℕ) (o : Option (SocketInfo K)) → m des ≡ o → KeepsPaired (drain_found m o)
  drain_found-KeepsPaired des none e = p
  drain_found-KeepsPaired des (some s) e = drain_pair-KeepsPaired des s (p des s e)

  module _ (sys : Kernel K) where
    read_found-KeepsPaired :
        (des n min : ℕ) (o : Option (SocketInfo K))
        → m des ≡ o
        → KeepsPaired (read_found sys des n min m o)
    read_found-KeepsPaired des n min none e = p
    read_found-KeepsPaired des n min (some s) e =
        insert-IsPaired m des s (info_of (reading sys n min s)) e (reading-pair sys n min s) p

    write_pair-KeepsPaired :
        (bytes : List ℕ) (des : ℕ) (s : SocketInfo K)
        → (s.pair ≡ peer_closed) ⊎ HasPartner m des s
        → KeepsPaired (write_pair sys bytes m s.pair)
    write_pair-KeepsPaired bytes des s (inl gone) =
        subst (λ x. KeepsPaired (write_pair sys bytes m x)) (sym gone) p
    write_pair-KeepsPaired bytes des s (inr q) =
        subst (λ x. KeepsPaired (write_pair sys bytes m x)) (sym q.names)
          (subst (λ o. KeepsPaired (write_at_info sys bytes q.partner m o)) (sym q.there)
            (insert-IsPaired m q.partner q.info (writing sys bytes q.info) q.there
              (writing-pair sys bytes q.info) p))

    write_found-KeepsPaired :
        (bytes : List ℕ) (des : ℕ) (o : Option (SocketInfo K))
        → m des ≡ o
        → KeepsPaired (write_found sys bytes m o)
    write_found-KeepsPaired bytes des none e = p
    write_found-KeepsPaired bytes des (some s) e = write_pair-KeepsPaired bytes des s (p des s e)

close_found-KeepsPaired :
    {K : Type 0} (sys : Kernel K) (m : DesInfoMap K)
    → IsPaired m
    → (des : ℕ) (o : Option (SocketInfo K)) → m des ≡ o
    → KeepsPaired (close_found sys des m o)
close_found-KeepsPaired sys m p des none e = p
close_found-KeepsPaired sys m p des (some s) e = close_pair-KeepsPaired m p des s e sys (p des s e)

module _ {K : Type 0} (m : DesInfoMap K) (p : IsPaired m) where
  -- Whatever the program calls, two open descriptors of a socket pair name each other in `desInfoMap`
  -- and a descriptor whose partner is closed knows it, so that `desInfoMap[pair]` is always there: no
  -- read, write, drain or close of any descriptor is undefined. A new pair has descriptors that are
  -- not in the map.
  pub calls-KeepsPaired :
      (sys : Kernel K) (des e : ℕ)
      → ((n min : ℕ) → KeepsPaired (my_readcond sys des n min m))
        × ((bytes : List ℕ) → KeepsPaired (my_write sys des bytes m))
        × KeepsPaired (my_tcdrain des m)
        × KeepsPaired (my_close sys des m)
        × ((k l : K) → m des ≡ none → m e ≡ none → des ≢ e → IsPaired (my_socketpair des e k l m))
  unfolding my_readcond my_write my_tcdrain my_close
  calls-KeepsPaired sys des e = (
    λ n min. read_found-KeepsPaired m p sys des n min (m des) refl,
    λ bytes. write_found-KeepsPaired m p sys bytes des (m des) refl,
    drain_found-KeepsPaired m p des (m des) refl,
    close_found-KeepsPaired sys m p des (m des) refl,
    λ k l free_d free_e apart. new_pair m p des e k l free_d free_e apart,
  )
