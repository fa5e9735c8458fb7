-- ===== src/MyIo/Reads.antt =====
-- The steps of readers on one direction of a socket pair, as steps of a channel without counters.
use y_modem_protocol.Base.{
  ℕ, ◌≡◌, ◌≢◌, refl, sym, ap, ◌∙◌, ◌⊎◌, Bool, true, false, not, ◌&&◌, ltb, leb, ◌==◌, if◌then◌else◌,
  List, [], ◌∷◌, ◌++◌, length, take, drop, length-take, length-drop, Bool-cases, inl, inr, arith,
}
use y_modem_protocol.MyIo.Defs.{
  Kernel, closed, peer_closed, is_peer_closed, Call, SocketInfo, Reading, gave, notify_drain,
  read_now, reading, waited_for, reading_on,
}
use y_modem_protocol.MyIo.Steps.{info_of, bytes_of, IsSound}
use y_modem_protocol.MyIo.Sound.{length-read, length-rest}
use y_modem_protocol.MyIo.Channel.{
  is_ready, ChannelStep, reads_nothing, reads_now, reads_later, waited, was_reset, view,
  counted_unless,
}

pub empty_queue : (q : List ℕ) → length q ≡ 0 → q ≡ []
empty_queue [] e = refl
empty_queue (a ∷ q) e = ground arith

pub take_empty : (n : ℕ) → ◌≡◌ {A = List ℕ} [] (take n [])
take_empty n = sym (empty_queue (take n []) (omega (arith, length-take {A = ℕ} n [])))

drop_empty : (n : ℕ) → ◌≡◌ {A = List ℕ} [] (drop n [])
drop_empty n = sym (empty_queue (drop n []) (omega (arith, length-drop {A = ℕ} n [])))

module _ {K : Type 0} (sys : Kernel K) where
  open sys use {
    contents, accepted, contents-write, read, read_lem, rest, contents-rest, contents-close,
  }

  module _ (s : SocketInfo K) (i : IsSound sys s) (still : s.pair ≢ closed) where
    abbrev pub ShowsStep : List ℕ → List ℕ → SocketInfo K → Type 0
    ShowsStep put got t = ChannelStep (view sys s) put got (view sys t)

    pub counts : s.total_written ≡ length (contents s.kernel)
    counts = counted_unless sys i still

    same_view :
        {q r : List ℕ} {a b : ℕ}
        → q ≡ r
        → a ≡ b
        → record (view sys s) { queue = q; drainers = a }
          ≡ record (view sys s) { queue = r; drainers = b }
    same_view {q} {r} {a} e f = rw (e, f) refl

    left_after : ℕ → ℕ
    left_after n = if length (drop n (contents s.kernel)) == 0 then 0 else s.cv_drain

    read_now-left : (n : ℕ) → s.max_total_can_read ≡ 0 → (read_now sys n s).cv_drain ≡ left_after n
    unfolding read_now notify_drain left_after
    read_now-left n none = ground (
      arith,
      counts,
      i.wakes,
      length-read sys n s.kernel,
      length-rest sys n s.kernel,
      ap length (contents-rest n s.kernel),
      sys.contents-lt s.kernel,
    )

    nothing_left : (n : ℕ) → s.total_written ≡ 0 → s.cv_drain ≡ left_after n
    unfolding left_after
    nothing_left n none = ground (arith, i.wakes)

    read_now-kernel : (n : ℕ) → (read_now sys n s).kernel ≡ rest n s.kernel
    unfolding read_now notify_drain
    read_now-kernel n = ground arith

    read_now-view :
        (n : ℕ)
        → view sys (read_now sys n s) ≡ record (view sys s) {
          queue = contents (read_now sys n s).kernel;
          drainers = (read_now sys n s).cv_drain;
        }
    unfolding read_now notify_drain
    read_now-view n = ground arith

    abbrev ShowsReading : Reading K → Type 0
    ShowsReading r = ShowsStep [] (bytes_of r) (info_of r)

    is_ready_lem :
        (min : ℕ)
        → is_ready min (view sys s) ≡ (s.max_total_can_read == 0 && leb min s.total_written)
    is_ready_lem min = rw (counts, i.claimed) refl

    drop_nothing : (n : ℕ) → s.total_written ≡ 0 → contents s.kernel ≡ drop n (contents s.kernel)
    drop_nothing n none =
        let e = empty_queue (contents s.kernel) (sym counts ∙ none) in
        e ∙ drop_empty n ∙ ap (drop n) (sym e)

    take_nothing : (n : ℕ) → s.total_written ≡ 0 → [] ≡ take n (contents s.kernel)
    take_nothing n none =
        let e = empty_queue (contents s.kernel) (sym counts ∙ none) in
        take_empty n ∙ ap (take n) (sym e)

    at_once :
        (n min : ℕ)
        → is_peer_closed s.pair ≡ false
        → (s.max_total_can_read == 0 && leb min s.total_written) ≡ true
        → ShowsReading (
            if min == 0 && s.total_written == 0
            then gave [] s
            else gave (read n s.kernel) (read_now sys n s))
    unfolding left_after
    at_once n min there now = elim (Bool-cases (min == 0 && s.total_written == 0)) [
      | inl none ↦
          let zero : s.total_written ≡ 0 = ground arith in
          rw none (
            reads_now n min there (is_ready_lem min ∙ now) refl (take_nothing n zero)
              (same_view (drop_nothing n zero) (nothing_left n zero)))
      | inr taken ↦ rw taken (
          reads_now n min there (is_ready_lem min ∙ now) refl (read_lem n s.kernel) (
            read_now-view n
            ∙ same_view (ap contents (read_now-kernel n) ∙ contents-rest n s.kernel)
                (read_now-left n (ground arith))))
    ]

    pub reading-Shows : (n min : ℕ) → ShowsReading (reading sys n min s)
    unfolding reading notify_drain
    reading-Shows n min = elim (Bool-cases (is_peer_closed s.pair)) [
      | inl gone ↦ rw gone (reads_nothing gone refl refl refl)
      | inr there ↦
          rw there (elim (Bool-cases (s.max_total_can_read == 0 && leb min s.total_written)) [
            | inl now ↦ rw now (at_once n min there now)
            | inr later ↦
                rw later (reads_later n min there (is_ready_lem min ∙ later) refl refl refl)
          ])
    ]

    pub reading_on-Shows :
        (reset : Bool) (front back : List Call) (c : Call)
        → s.cv_read ≡ front ++ (c ∷ back)
        → (reset ≡ false) ⊎ (s.pair ≡ peer_closed)
        → ShowsStep [] (waited_for sys reset c.n s) (reading_on sys reset c.n (front ++ back) s)
    unfolding reading_on
    reading_on-Shows reset front back c e w =
        elim (Bool-cases (ltb 0 s.total_written && not reset)) [
          | inl bytes ↦ rw bytes (
              waited front back c e refl (read_lem c.n s.kernel) (
                ap (λ q. record (view sys s) { queue = q; waiting = front ++ back })
                  (contents-rest c.n s.kernel)))
          | inr nothing ↦ rw nothing (elim w [
            | inl went ↦
                let zero : s.total_written ≡ 0 = ground arith in
                waited front back c e refl (take_nothing c.n zero) (
                  ap (λ q. record (view sys s) { queue = q; waiting = front ++ back })
                    (drop_nothing c.n zero))
            | inr gone ↦ was_reset front back c e gone refl refl refl
          ])
        ]
