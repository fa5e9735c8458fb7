-- ===== src/Peer/Transfer/Steps.antt =====
-- The loop of `transferCommon` takes the steps that its rounds say.
use y_modem_protocol.Base.{
  ℕ, ◌≡◌, ◌≢◌, refl, sym, ap, ◌∙◌, arith, Bool, true, false, List, [], ◌∷◌, get_or, Option, none,
  some, ◌==◌, ◌&&◌, Bool-cases, inl, inr, subst, if◌then◌else◌,
}
use y_modem_protocol.Base.Int.{ℤ, pos, negsuc, ltb_ℤ}
use y_modem_protocol.Peer.Defs.{kb_c}
use y_modem_protocol.Peer.Transfer.{
  StateMgr, Round, Selected, interrupted, failed, nothing, ready, Ended, ended, exit_failure,
  thrown, then_do, of_post, after_cancel, on_medium, on_keys, on_ready, on_selected, round,
  transfer_loop, time_left,
}
use y_modem_protocol.Peer.Transfer.Events.{
  IsAhead, IsDue, left_until, told, read, Heard, silent, no_byte, received, Typed, no_key,
  other_keys, cancelled, Step, broken_off, early, timed_out, came, Steps, over, off, next,
}

time_left_lem : (due : ℤ) (now : ℕ) → time_left due now ≡ left_until due now
unfolding time_left
time_left_lem (pos due) now = ground arith
time_left_lem (negsuc n) now = ground arith

true-IsAhead : (due : ℤ) (now : ℕ) → ltb_ℤ (pos now) due ≡ true → IsAhead due now
true-IsAhead (pos due) now h = ground arith
true-IsAhead (negsuc n) now h = ground arith

false-IsDue : (due : ℤ) (now : ℕ) → ltb_ℤ (pos now) due ≡ false → IsDue due now
false-IsDue (pos due) now h = ground arith
false-IsDue (negsuc n) now h = tt

module _ {A M : Type 0} (chart : StateMgr A M) where
  open chart use {is_running, peer_of, on_peer, post, post_stopped}

  -- A relation to the machine that is there at the end, if there is one.
  abbrev Ends : (M → Type 0) → Ended M → Type 0
  Ends P (ended n) = P n
  Ends P exit_failure = Unit {0}
  Ends P thrown = Unit {0}

  then_do-Ends :
      (P Q : M → Type 0) (e : Ended M) (f : M → Ended M)
      → Ends P e
      → ((n : M) → P n → Ends Q (f n))
      → Ends Q (then_do e f)
  then_do-Ends P Q (ended n) f p h = h n p
  then_do-Ends P Q exit_failure f p h = tt
  then_do-Ends P Q thrown f p h = tt

  of_post-Ends : (P : M → Type 0) (o : Option M) → ((n : M) → o ≡ some n → P n) → Ends P (of_post o)
  of_post-Ends P none h = tt
  of_post-Ends P (some n) h = h n refl

  on_medium-Heard :
      (t : Round A) (m : M) (got : Option ℕ)
      → read chart t m ≡ got
      → Ends (Heard chart t m true) (on_medium chart t got m)
  unfolding on_medium
  on_medium-Heard t m none e = no_byte e
  on_medium-Heard t m (some c) e = of_post-Ends (Heard chart t m true) _ (λ n p. received c e p)

  of_cancel :
      (t : Round A) (m : M) (more : List ℕ) (o : Option M)
      → t.keys ≡ b'&' ∷ b'c' ∷ more
      → post (t.answers kb_c) kb_c m ≡ o
      → Ends (Typed chart t m true) (then_do (of_post o) (λ n. ended (on_peer after_cancel n)))
  of_cancel t m more none keys e = tt
  of_cancel t m more (some n) keys e = cancelled more keys e refl

  both_keys :
      (k l : ℕ) (more : List ℕ)
      → (k == b'&' && l == b'c') ≡ true
      → k ∷ l ∷ more ≡ b'&' ∷ b'c' ∷ more
  both_keys k l more h = ground arith

  other_than :
      (more' : List ℕ) (k l : ℕ) (more : List ℕ)
      → (k == b'&' && l == b'c') ≡ false
      → k ∷ l ∷ more ≢ b'&' ∷ b'c' ∷ more'
  other_than more' k l more h e =
      let first : k ≡ b'&' = ap (λ x. get_or x 0 0) e in
      let second : l ≡ b'c' = ap (λ x. get_or x 1 0) e in ground arith

  on_keys-Typed :
      (t : Round A) (m : M) (keys : List ℕ)
      → t.keys ≡ keys
      → Ends (Typed chart t m true) (on_keys chart t keys m)
  unfolding on_keys
  on_keys-Typed t m [] e = other_keys (λ more f. cc)
  on_keys-Typed t m (k ∷ []) e = other_keys (λ more f. cc)
  on_keys-Typed t m (k ∷ l ∷ more) e = elim (Bool-cases (k == b'&' && l == b'c')) [
    | inl yes_c ↦ rw yes_c (of_cancel t m more _ (e ∙ both_keys k l more yes_c) refl)
    | inr other ↦ rw other (other_keys (λ more' f. other_than more' k l more other (sym e ∙ f)))
  ]

  medium-Heard :
      (t : Round A) (m : M) (medium : Bool)
      → Ends
          (Heard chart t m medium)
          (if medium then on_medium chart t (read chart t m) m else ended m)
  medium-Heard t m true = on_medium-Heard t m (read chart t m) refl
  medium-Heard t m false = silent

  console-Typed :
      (t : Round A) (m : M) (console : Bool)
      → Ends (Typed chart t m console) (if console then on_keys chart t t.keys m else ended m)
  console-Typed t m true = on_keys-Typed t m t.keys refl
  console-Typed t m false = no_key

  Ends-map : (P Q : M → Type 0) (e : Ended M) → Ends P e → ((n : M) → P n → Q n) → Ends Q e
  Ends-map P Q (ended n) p h = h n p
  Ends-map P Q exit_failure p h = tt
  Ends-map P Q thrown p h = tt

  on_ready-Step :
      (t : Round A) (m : M) (medium console : Bool)
      → told chart t m ≡ ready medium console
      → Ends (Step chart t m) (on_ready chart t medium console m)
  unfolding on_ready
  on_ready-Step t m medium console e =
      then_do-Ends (Heard chart t m medium) (Step chart t m) _ _ (medium-Heard t m medium)
        (λ n heard.
          Ends-map (Typed chart t n console) (Step chart t m) _ (console-Typed t n console)
            (λ k typed. came medium console e heard typed))

  on_selected-Step :
      (t : Round A) (m : M) (s : Selected)
      → told chart t m ≡ s
      → Ends (Step chart t m) (on_selected chart t s m)
  unfolding on_selected
  on_selected-Step t m interrupted e = broken_off e
  on_selected-Step t m failed e = tt
  on_selected-Step t m nothing e =
      elim (Bool-cases (ltb_ℤ (pos t.now) (peer_of m).absolute_timeout)) [
        | inl ahead ↦ rw ahead (early e (true-IsAhead (peer_of m).absolute_timeout t.now ahead))
        | inr due ↦ rw due (
            of_post-Ends (Step chart t m) _
              (λ n p. timed_out e (false-IsDue (peer_of m).absolute_timeout t.now due) p))
      ]
  on_selected-Step t m (ready medium console) e = on_ready-Step t m medium console e

  round-Step : (t : Round A) (m : M) → Ends (Step chart t m) (round chart t m)
  unfolding round
  round-Step t m =
      rw (time_left_lem (peer_of m).absolute_timeout t.now)
        (on_selected-Step t m (told chart t m) refl)

  transfer_loop-Ends :
      (ts : List (Round A)) (m : M) → Ends (Steps chart ts m) (transfer_loop chart ts m)
  unfolding transfer_loop
  transfer_loop-Ends [] m = over
  transfer_loop-Ends (t ∷ ts) m = elim (Bool-cases (is_running m)) [
    | inl on ↦ rw on (
        then_do-Ends (Step chart t m) (Steps chart (t ∷ ts) m) (round chart t m)
          (transfer_loop chart ts) (round-Step t m)
          (λ n step.
            Ends-map (Steps chart ts n) (Steps chart (t ∷ ts) m) (transfer_loop chart ts n)
              (transfer_loop-Ends ts n) (λ k steps. next on step steps)))
    | inr stopped ↦ rw stopped (off stopped)
  ]

  -- Wherever the loop of `transferCommon` brings a chart, the rounds bring it there step by step, in
  -- order, for as long as the chart runs. In a round `select` waits for the time until the timeout,
  -- and for none if it is not ahead. When nothing comes, TM is posted if the timeout is due at the
  -- time of that round, and nothing if it is ahead. When the medium is ready, SER is posted for the
  -- byte that is read, if one is; then, when the console is ready, KB_C for `&c`, which is noted
  -- behind it; and nothing else is posted.
  pub transfer_loop-Steps :
      (ts : List (Round A)) (m n : M) → transfer_loop chart ts m ≡ ended n → Steps chart ts m n
  transfer_loop-Steps ts m n e = subst (Ends (Steps chart ts m)) e (transfer_loop-Ends ts m)
