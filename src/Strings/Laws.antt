-- ===== src/Strings/Laws.antt =====
-- Laws of the string functions.
use Prim.Native.String.{String, [], ◌∷◌, ◌++◌}
use text.Mathlib.TextLemmas.{nil-append, cons-append, cons-ne-nil}
use tip_olg_nats_agent_core.Common.{
  ◌≡◌, refl, Char, Bool, true, false, ◌==◌, ◌||◌, arith, ap, eq-false_of_ne,
}
use tip_olg_nats_agent_core.Strings.{trim_space, trim_right, is_space, any_char}

-- A test that holds of fewer code points holds of fewer texts.
pub any_char_mono :
    (p q : Char → Bool) (s : String)
    → ((c : Char) → p c ≡ true → q c ≡ true)
    → any_char q s ≡ false
    → any_char p s ≡ false
unfolding any_char
any_char_mono p q [] h e = refl
any_char_mono p q (c ∷ s) h e = ground (arith, h c, any_char_mono p q s h)

pub any_char-append :
    (p : Char → Bool) (s t : String) → any_char p (s ++ t) ≡ (any_char p s || any_char p t)
unfolding any_char
any_char-append p [] t = ap (any_char p) (nil-append t)
any_char-append p (c ∷ s) t = rw cons-append (ground (arith, any_char-append p s t))

trim_right-ne-empty :
    (c : Char) (s : String) → is_space c ≡ false → (trim_right (c ∷ s) == "") ≡ false
unfolding trim_right
trim_right-ne-empty c s h = rw h (eq-false_of_ne (cons-ne-nil c (trim_right s)))

-- A text that does not begin with white space is not blank.
pub trim_space-ne-empty :
    (c : Char) (s : String) → is_space c ≡ false → (trim_space (c ∷ s) == "") ≡ false
unfolding trim_space
trim_space-ne-empty c s h = rw h (trim_right-ne-empty c s h)
