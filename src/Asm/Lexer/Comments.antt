-- ===== src/Asm/Lexer/Comments.antt =====
-- A comment that follows a word without a space.
use chip_eight_jit.Common.{ℕ, ◌≡◌, refl, sym, ap, true, false, ◌||◌, [], ◌∷◌, ◌++◌, arith}
use chip_eight_jit.Asm.Lexer.{Text, starts_comment, separates, tokens_of}

-- No character of the text ends a token.
abbrev pub IsWord : Text → Type 0
IsWord [] = Unit
IsWord (c ∷ cs) = ((separates c || starts_comment c) ≡ false) × IsWord cs

append_assoc : (a b : Text) (c : ℕ) → (a ++ c ∷ []) ++ b ≡ a ++ c ∷ b
append_assoc [] b c = refl
append_assoc (d ∷ a) b c = ap (λ t. d ∷ t) (append_assoc a b c)

append_nil : (a : Text) → a ++ [] ≡ a
append_nil [] = refl
append_nil (d ∷ a) = ap (λ t. d ∷ t) (append_nil a)

-- A word ends at the first character that is no part of it, which is passed over.
pub rest_of_word :
    (into word rest : Text) (d : ℕ)
    → IsWord word
    → (separates d || starts_comment d) ≡ true
    → tokens_of true into (word ++ d ∷ rest) ≡ (into ++ word) ∷ tokens_of false [] rest
unfolding tokens_of
rest_of_word into [] rest d w h =
    ground (arith, ap (λ t. t ∷ tokens_of false [] rest) (sym (append_nil into)))
rest_of_word into (c ∷ word) rest d (plain, w) h =
    ground (arith, plain, rest_of_word (into ++ c ∷ []) word rest d w h, append_assoc into word c)

-- A word may also be the start of a longer text.
pub into_word :
    (into word rest : Text)
    → IsWord word
    → tokens_of true into (word ++ rest) ≡ tokens_of true (into ++ word) rest
unfolding tokens_of
into_word into [] rest w = ap (λ t. tokens_of true t rest) (sym (append_nil into))
into_word into (c ∷ word) rest (plain, w) =
    ground (arith, plain, into_word (into ++ c ∷ []) word rest w, append_assoc into word c)

pub word_then :
    (c d : ℕ) (word rest : Text)
    → IsWord (c ∷ word)
    → (separates d || starts_comment d) ≡ true
    → tokens_of false [] (c ∷ word ++ d ∷ rest) ≡ (c ∷ word) ∷ tokens_of false [] rest
unfolding tokens_of
word_then c d word rest (plain, w) h = ground (arith, plain, rest_of_word (c ∷ []) word rest d w h)

-- A semicolon that directly follows a word ends the word but starts no comment: what stands after it
-- is split into tokens as if the semicolon were a space.
pub tokens_of_glued :
    (c : ℕ) (word rest : Text)
    → IsWord (c ∷ word)
    → tokens_of false [] (c ∷ word ++ b';' ∷ rest) ≡ (c ∷ word) ∷ tokens_of false [] rest
tokens_of_glued c word rest w = word_then c b';' word rest w refl
