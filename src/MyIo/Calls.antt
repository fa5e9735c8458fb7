-- ===== src/MyIo/Calls.antt =====
-- `desInfoMap` and the functions of Ensc351ymodLib/myIO.cpp that the program calls. A function that
-- finds its descriptor in the map does what `socketInfoClass` does, one that does not makes the
-- system call of its name.
use y_modem_protocol.Base.{ℕ, ◌==◌, if◌then◌else◌, List, Option, none, some}
use y_modem_protocol.MyIo.Defs.{
  Kernel, Pair, paired, closed, peer_closed, SocketInfo, Reading, Draining, returned, new_info,
  draining, closing, writing, reading,
}
use y_modem_protocol.MyIo.Steps.{info_of, drained}

-- `map<int, socketInfoClassSp> desInfoMap`
abbrev pub DesInfoMap : Type 0 → Type 0
DesInfoMap K = ℕ → Option (SocketInfo K)

-- What a call does: a member function, with its result and the map behind it; the system call, with
-- the map behind it; or `desInfoMap[pair]` is not there, and the behaviour is undefined.
pub data Called (K R : Type 0) : Type 0 where
  member : R → DesInfoMap K → Called K R
  system : DesInfoMap K → Called K R
  undefined : Called K R

module _ {K : Type 0} where
  unfoldable pub insert : ℕ → SocketInfo K → DesInfoMap K → DesInfoMap K
  insert des s m e = if e == des then some s else m e

  unfoldable pub erase : ℕ → DesInfoMap K → DesInfoMap K
  erase des m e = if e == des then none else m e

  -- `mySocketpair`, when the system has made the pair `d`, `e`.
  unfoldable pub my_socketpair : ℕ → ℕ → K → K → DesInfoMap K → DesInfoMap K
  unfolding insert
  my_socketpair d e k l m = insert e (new_info d l) (insert d (new_info e k) m)

  abbrev pub drain_at : ℕ → DesInfoMap K → Option (SocketInfo K) → Called K (Draining K)
  drain_at d m none = undefined
  drain_at d m (some t) = member (draining t) (insert d (drained (draining t)) m)

  abbrev pub drain_pair : DesInfoMap K → SocketInfo K → Pair → Called K (Draining K)
  drain_pair m s peer_closed = member (returned s) m
  drain_pair m s (paired d) = drain_at d m (m d)
  drain_pair m s closed = undefined

  abbrev pub drain_found : DesInfoMap K → Option (SocketInfo K) → Called K (Draining K)
  drain_found m none = system m
  drain_found m (some s) = drain_pair m s s.pair

  unfoldable pub my_tcdrain : ℕ → DesInfoMap K → Called K (Draining K)
  my_tcdrain des m = drain_found m (m des)

module _ {K : Type 0} (sys : Kernel K) where
  -- `closing` with the object of the paired descriptor, which it writes too.
  abbrev pub close_at :
      SocketInfo K → ℕ → DesInfoMap K → Option (SocketInfo K) → Called K (SocketInfo K)
  close_at s d m none = undefined
  close_at s d m (some t) = member ((closing sys s t).0) (insert d ((closing sys s t).1) m)

  abbrev pub close_pair : DesInfoMap K → SocketInfo K → Pair → Called K (SocketInfo K)
  close_pair m s peer_closed = member (record s { kernel = sys.close s.kernel }) m
  close_pair m s (paired d) = close_at s d m (m d)
  close_pair m s closed = undefined

  abbrev pub close_found : ℕ → DesInfoMap K → Option (SocketInfo K) → Called K (SocketInfo K)
  close_found des m none = system m
  close_found des m (some s) = close_pair (erase des m) s s.pair

  -- The result is the object that has left the map.
  unfoldable pub my_close : ℕ → DesInfoMap K → Called K (SocketInfo K)
  my_close des m = close_found des m (m des)

  abbrev pub read_found : ℕ → ℕ → ℕ → DesInfoMap K → Option (SocketInfo K) → Called K (Reading K)
  read_found des n min m none = system m
  read_found des n min m (some s) =
      member (reading sys n min s) (insert des (info_of (reading sys n min s)) m)

  -- Until the call returns or waits.
  unfoldable pub my_readcond : ℕ → ℕ → ℕ → DesInfoMap K → Called K (Reading K)
  my_readcond des n min m = read_found des n min m (m des)

  -- A read of one byte at least; its wait has the time limit 0.
  unfoldable pub my_read : ℕ → ℕ → DesInfoMap K → Called K (Reading K)
  unfolding my_readcond
  my_read des nbyte m = my_readcond des nbyte 1 m

  abbrev pub write_at_info : List ℕ → ℕ → DesInfoMap K → Option (SocketInfo K) → Called K ℕ
  write_at_info bytes d m none = undefined
  write_at_info bytes d m (some t) =
      member (sys.accepted bytes t.kernel) (insert d (writing sys bytes t) m)

  abbrev pub write_pair : List ℕ → DesInfoMap K → Pair → Called K ℕ
  write_pair bytes m peer_closed = system m
  write_pair bytes m (paired d) = write_at_info bytes d m (m d)
  write_pair bytes m closed = undefined

  abbrev pub write_found : List ℕ → DesInfoMap K → Option (SocketInfo K) → Called K ℕ
  write_found bytes m none = system m
  write_found bytes m (some s) = write_pair bytes m s.pair

  unfoldable pub my_write : ℕ → List ℕ → DesInfoMap K → Called K ℕ
  my_write des bytes m = write_found bytes m (m des)
