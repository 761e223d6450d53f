-- ===== src/Disas/Format/Reading.antt =====
-- How src/asm.c reads what src/disas.c prints: the digits and the words.
use chip_eight_jit.Common.{ℕ, ◌<◌, ◌≡◌, refl, ◌∙◌, ap, true, false, ◌||◌, [], ◌∷◌, ◌++◌, arith}
use chip_eight_jit.Asm.Lexer.{Text, text, starts_comment, separates, toupper, tokens_of}
use chip_eight_jit.Asm.Values.{digit_value}
use chip_eight_jit.Asm.Lexer.Comments.{IsWord, word_then, into_word}
use chip_eight_jit.Disas.Format.{hex_digit}

pub separates-hex_digit : (d : ℕ) → d < 16 → separates (hex_digit d) ≡ false
unfolding hex_digit
separates-hex_digit d h = ground arith

pub starts_comment-hex_digit : (d : ℕ) → d < 16 → starts_comment (hex_digit d) ≡ false
unfolding hex_digit
starts_comment-hex_digit d h = ground arith

pub toupper-hex_digit : (d : ℕ) → d < 16 → toupper (hex_digit d) ≡ hex_digit d
unfolding hex_digit
toupper-hex_digit d h = ground arith

pub digit_value-hex_digit : (d : ℕ) → d < 16 → digit_value (hex_digit d) ≡ d
unfolding hex_digit
digit_value-hex_digit d h = ground arith

-- A text of one character at least, none of which ends a token.
abbrev pub IsToken : Text → Type 0
IsToken [] = ⊥
IsToken (c ∷ w) = IsWord (c ∷ w)

-- What can stand behind the last token of a line: it ends the token, and holds no other.
abbrev pub Stops : Text → Type 0
Stops rest = (into : Text) → tokens_of true into rest ≡ into ∷ []

pub token_then :
    (w rest : Text) (d : ℕ)
    → IsToken w
    → (separates d || starts_comment d) ≡ true
    → tokens_of false [] (w ++ d ∷ rest) ≡ w ∷ tokens_of false [] rest
token_then [] rest d t h = absurd t
token_then (c ∷ w) rest d t h = word_then c d w rest t h

token_last : (w rest : Text) → IsToken w → Stops rest → tokens_of false [] (w ++ rest) ≡ w ∷ []
unfolding tokens_of
token_last [] rest t stops = absurd t
token_last (c ∷ w) rest (plain, t) stops =
    ground (arith, plain, into_word (c ∷ []) w rest t, stops (c ∷ w))

abbrev pub indent : Text
indent = text "        "

pub tokens_of_none :
    (m rest : Text) → IsToken m → Stops rest → tokens_of false [] (indent ++ (m ++ rest)) ≡ m ∷ []
unfolding tokens_of
tokens_of_none m rest t stops = token_last m rest t stops

pub tokens_of_one :
    (m a rest : Text)
    → IsToken m
    → IsToken a
    → Stops rest
    → tokens_of false [] (indent ++ (m ++ (b' ' ∷ (a ++ rest)))) ≡ m ∷ a ∷ []
unfolding tokens_of
tokens_of_one m a rest t u stops =
    token_then m (a ++ rest) b' ' t refl ∙ ap (λ ts. m ∷ ts) (token_last a rest u stops)

abbrev pub comma : Text → Text
comma t = b',' ∷ b' ' ∷ t

pub tokens_of_two :
    (m a b rest : Text)
    → IsToken m
    → IsToken a
    → IsToken b
    → Stops rest
    → tokens_of false [] (indent ++ (m ++ (b' ' ∷ (a ++ comma (b ++ rest))))) ≡ m ∷ a ∷ b ∷ []
unfolding tokens_of
tokens_of_two m a b rest t u v stops =
    token_then m (a ++ comma (b ++ rest)) b' ' t refl
    ∙ ap (λ ts. m ∷ ts)
        (token_then a (b' ' ∷ (b ++ rest)) b',' u refl
          ∙ ap (λ ts. a ∷ ts) (token_last b rest v stops))

pub tokens_of_three :
    (m a b c rest : Text)
    → IsToken m
    → IsToken a
    → IsToken b
    → IsToken c
    → Stops rest
    → tokens_of false [] (indent ++ (m ++ (b' ' ∷ (a ++ comma (b ++ comma (c ++ rest))))))
      ≡ m ∷ a ∷ b ∷ c ∷ []
unfolding tokens_of
tokens_of_three m a b c rest t u v w stops =
    token_then m (a ++ comma (b ++ comma (c ++ rest))) b' ' t refl
    ∙ ap (λ ts. m ∷ ts)
        (token_then a (b' ' ∷ (b ++ comma (c ++ rest))) b',' u refl
          ∙ ap (λ ts. a ∷ ts)
              (token_then b (b' ' ∷ (c ++ rest)) b',' v refl
                ∙ ap (λ ts. b ∷ ts) (token_last c rest w stops)))
