-- ===== src/Machine/Digits.antt =====
-- The digits of the font of src/chip8.c as pictures, five rows of four dots each.
use chip_eight_jit.Common.{
  ℕ, zero, suc, ◌+◌, ◌-◌, ◌*◌, ◌^◌, ◌≡◌, refl, ap, List, [], ◌∷◌, ◌++◌, Bool, true, false, map,
  get_or, length, ◌≤◌, arith,
}
use chip_eight_jit.Machine.{initial_memory, font}

-- A row of dots.
abbrev bar : List Bool
bar = true ∷ true ∷ true ∷ true ∷ []

abbrev sides : List Bool
sides = true ∷ false ∷ false ∷ true ∷ []

abbrev left_edge : List Bool
left_edge = true ∷ false ∷ false ∷ false ∷ []

abbrev right_edge : List Bool
right_edge = false ∷ false ∷ false ∷ true ∷ []

abbrev third : List Bool
third = false ∷ false ∷ true ∷ false ∷ []

abbrev flag : List Bool
flag = false ∷ true ∷ true ∷ false ∷ []

abbrev foot : List Bool
foot = false ∷ true ∷ true ∷ true ∷ []

abbrev second : List Bool
second = false ∷ true ∷ false ∷ false ∷ []

abbrev round_bar : List Bool
round_bar = true ∷ true ∷ true ∷ false ∷ []

-- The digits from 0 to F, from their top row down.
abbrev digit_0 : List (List Bool)
digit_0 = bar ∷ sides ∷ sides ∷ sides ∷ bar ∷ []

abbrev digit_1 : List (List Bool)
digit_1 = third ∷ flag ∷ third ∷ third ∷ foot ∷ []

abbrev digit_2 : List (List Bool)
digit_2 = bar ∷ right_edge ∷ bar ∷ left_edge ∷ bar ∷ []

abbrev digit_3 : List (List Bool)
digit_3 = bar ∷ right_edge ∷ bar ∷ right_edge ∷ bar ∷ []

abbrev digit_4 : List (List Bool)
digit_4 = sides ∷ sides ∷ bar ∷ right_edge ∷ right_edge ∷ []

abbrev digit_5 : List (List Bool)
digit_5 = bar ∷ left_edge ∷ bar ∷ right_edge ∷ bar ∷ []

abbrev digit_6 : List (List Bool)
digit_6 = bar ∷ left_edge ∷ bar ∷ sides ∷ bar ∷ []

abbrev digit_7 : List (List Bool)
digit_7 = bar ∷ right_edge ∷ third ∷ second ∷ second ∷ []

abbrev digit_8 : List (List Bool)
digit_8 = bar ∷ sides ∷ bar ∷ sides ∷ bar ∷ []

abbrev digit_9 : List (List Bool)
digit_9 = bar ∷ sides ∷ bar ∷ right_edge ∷ bar ∷ []

abbrev digit_a : List (List Bool)
digit_a = bar ∷ sides ∷ bar ∷ sides ∷ sides ∷ []

abbrev digit_b : List (List Bool)
digit_b = round_bar ∷ sides ∷ round_bar ∷ sides ∷ round_bar ∷ []

abbrev digit_c : List (List Bool)
digit_c = bar ∷ left_edge ∷ left_edge ∷ left_edge ∷ bar ∷ []

abbrev digit_d : List (List Bool)
digit_d = round_bar ∷ sides ∷ sides ∷ sides ∷ round_bar ∷ []

abbrev digit_e : List (List Bool)
digit_e = bar ∷ left_edge ∷ bar ∷ left_edge ∷ bar ∷ []

abbrev digit_f : List (List Bool)
digit_f = bar ∷ left_edge ∷ bar ∷ left_edge ∷ left_edge ∷ []

abbrev rows_of_digits : List (List Bool)
rows_of_digits =
    (digit_0
      ++ (digit_1
          ++ (digit_2
              ++ (digit_3
                  ++ (digit_4
                      ++ (digit_5
                          ++ (digit_6
                              ++ (digit_7
                                  ++ (digit_8
                                      ++ (digit_9
                                          ++ (digit_a
                                              ++ (digit_b
                                                  ++ (digit_c
                                                      ++ (digit_d
                                                          ++ (digit_e ++ digit_f)))))))))))))))

-- A row as a byte: its first dot is the highest bit.
abbrev weight : ℕ → List Bool → ℕ
weight bit [] = 0
weight bit (true ∷ dots) = 2 ^ bit + weight (bit - 1) dots
weight bit (false ∷ dots) = weight (bit - 1) dots

-- Row `i` of the picture of the digit `d`, as a byte.
abbrev pub picture : ℕ → ℕ → ℕ
picture d i = get_or (map (weight 7) rows_of_digits) (d * 5 + i) 0

font-pictures : font ≡ map (weight 7) rows_of_digits
font-pictures = refl

pub initial_memory-picture : (d i : ℕ) → initial_memory (d * 5 + i) ≡ picture d i
unfolding initial_memory
initial_memory-picture d i = ap (λ (bytes : List ℕ). get_or bytes (d * 5 + i) 0) font-pictures

get_or-beyond : (bytes : List ℕ) (i d : ℕ) → length bytes ≤ i → get_or bytes i d ≡ d
get_or-beyond [] i d h = refl
get_or-beyond (b ∷ bytes) zero d h = absurd (omega (arith, h))
get_or-beyond (b ∷ bytes) (suc i) d h = get_or-beyond bytes i d (omega (arith, h))

pub initial_memory-zero : (a : ℕ) → 80 ≤ a → initial_memory a ≡ 0
unfolding initial_memory
initial_memory-zero a h = get_or-beyond font a 0 h
