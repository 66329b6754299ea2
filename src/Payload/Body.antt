-- ===== src/Payload/Body.antt =====
-- The body of a payload as text.
use pubsublib.Prelude.{◌≡◌, refl, false, [], ◌∷◌, ◌++◌, arith, ◌==◌, All}
use pubsublib.Prelude.Texts.{Text}
use pubsublib.Payload.Defs.{Payload, string_to_body, body_to_string}

abbrev pub HasNoNul : Text → Type 0
HasNoNul = All (λ c. (c == 0) ≡ false)

-- The text of a body stops in front of the first NUL byte.
body_to_string-append : (s : Text) (rest : Text) → HasNoNul s → body_to_string (s ++ 0 ∷ rest) ≡ s
unfolding body_to_string
body_to_string-append [] rest h = refl
body_to_string-append (c ∷ cs) rest h = ground (arith, body_to_string-append cs rest h.1)

body_to_string-of : (s : Text) → HasNoNul s → body_to_string s ≡ s
unfolding body_to_string
body_to_string-of [] h = refl
body_to_string-of (c ∷ cs) h = ground (arith, body_to_string-of cs h.1)

-- A text without NUL written to the body is read back; behind a NUL in it nothing is.
pub body_to_string-string_to_body :
    (s rest : Text) (p : Payload)
    → HasNoNul s
    → (body_to_string (string_to_body s p).body ≡ s)
      × (body_to_string (string_to_body (s ++ 0 ∷ rest) p).body ≡ s)
unfolding string_to_body
body_to_string-string_to_body s rest p h = (body_to_string-of s h, body_to_string-append s rest h)
