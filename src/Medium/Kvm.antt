-- ===== src/Medium/Kvm.antt =====
-- `Kvm` (Ensc351Part6/src/Kvm.cpp): the switch that routes the keyboard to one of two terminals and
-- shows what the terminals send.
use y_modem_protocol.Base.{
  ℕ, ◌≡◌, refl, ap, ◌∙◌, Bool, true, false, ◌&&◌, ◌==◌, if◌then◌else◌, List, [], ◌∷◌, ◌++◌,
  append-nil,
}
use y_modem_protocol.Text.Defs.{c_string}

pub data Terminal : Type 0 where
  term1 term2 : Terminal

-- "~1\n", "~2\n" and "~q!\n"
abbrev pub kvm_term1_c : List ℕ
kvm_term1_c = b'~' ∷ b'1' ∷ 10 ∷ []

abbrev pub kvm_term2_c : List ℕ
kvm_term2_c = b'~' ∷ b'2' ∷ 10 ∷ []

abbrev pub kvm_quit_c : List ℕ
kvm_quit_c = b'~' ∷ b'q' ∷ b'!' ∷ 10 ∷ []

-- `strcmp(a, b) == 0`, on strings without their NUL.
pub same_text : List ℕ → List ℕ → Bool
same_text [] [] = true
same_text (a ∷ as_) (b ∷ bs) = a == b && same_text as_ bs
same_text _ _ = false

-- What a read from the keyboard leads to: the end, or the terminal that is selected from then on, and
-- what is written to which terminal.
pub data Input : Type 0 where
  quits : Input
  selected : Terminal → Input
  routed : Terminal → List ℕ → Input

unfoldable pub on_keyboard : List ℕ → Terminal → Input
unfolding same_text
on_keyboard got term_num =
    if same_text (c_string got) kvm_quit_c
    then quits
    else if same_text (c_string got) kvm_term1_c
    then selected term1
    else if same_text (c_string got) kvm_term2_c
    then selected term2
    else routed term_num got

abbrev pub go_on :
    Input → Terminal → (Terminal → List (Terminal × List ℕ)) → List (Terminal × List ℕ)
go_on quits t more = []
go_on (selected u) t more = more u
go_on (routed u bytes) t more = (u, bytes) ∷ more t

-- The loop on the reads from the keyboard: what is written, in order.
unfoldable pub kvm : List (List ℕ) → Terminal → List (Terminal × List ℕ)
kvm [] t = []
kvm (got ∷ gots) t = go_on (on_keyboard got t) t (kvm gots)

-- No read is a command.
abbrev pub AreLines : List (List ℕ) → Type 0
AreLines [] = Unit {0}
AreLines (got ∷ gots) = ((t : Terminal) → on_keyboard got t ≡ routed t got) × AreLines gots

abbrev pub each : Terminal → List (List ℕ) → List (Terminal × List ℕ)
each t [] = []
each t (got ∷ gots) = (t, got) ∷ each t gots

-- Lines that are no commands all go to the terminal that is selected, and what follows is handled as
-- if it came first.
pub kvm-lines :
    (gots more : List (List ℕ)) (t : Terminal)
    → AreLines gots
    → kvm (gots ++ more) t ≡ each t gots ++ kvm more t
unfolding kvm
kvm-lines [] more t h = refl
kvm-lines (got ∷ gots) more t h =
    ap (λ x. go_on x t (kvm (gots ++ more))) (h.0 t)
    ∙ ap (λ x. (t, got) ∷ x) (kvm-lines gots more t h.1)

-- A switch: the lines before it go to the old terminal, those after it to terminal 1, up to the
-- command that ends the kvm, which goes to neither; what comes behind that is not read.
pub kvm-switch :
    (before after late : List (List ℕ)) (t : Terminal)
    → AreLines before
    → AreLines after
    → kvm (before ++ (kvm_term1_c ∷ (after ++ (kvm_quit_c ∷ late)))) t
      ≡ each t before ++ each term1 after
unfolding kvm on_keyboard c_string
kvm-switch before after late t h k =
    kvm-lines before (kvm_term1_c ∷ (after ++ (kvm_quit_c ∷ late))) t h
    ∙ ap (λ x. each t before ++ x)
        (kvm-lines after (kvm_quit_c ∷ late) term1 k ∙ append-nil (each term1 after))
