-- ===== src/Disas/Printing/Reads/Tables.antt =====
-- The cases of the switch of `disassemble` that have a switch of their own.
use chip_eight_jit.Common.{ℕ, ◌/◌, ◌^◌, ◌<◌, ◌≡◌, refl, true, List, arith, ◌==◌}
use chip_eight_jit.Machine.{x_of, y_of, immediate_four, immediate_eight}
use chip_eight_jit.Asm.Lexer.{Text, text}
use chip_eight_jit.Asm.Values.{Symbol}
use chip_eight_jit.Disas.Analysis.{Flags}
use chip_eight_jit.Disas.Printing.{Style, raw_word, arithmetic_text, keyboard_text, misc_text}
use chip_eight_jit.Disas.Printing.Reads.{Reads}
use chip_eight_jit.Disas.Printing.Reads.Forms
use chip_eight_jit.Disas.Printing.Reads.Misc
use chip_eight_jit.Disas.Printing.Reads.Cases.{
  asm_style, branch, two_regs, only_reg, reg_then, then_reg, raw_Fits,
}

module _ (symbols : List Symbol) (op : ℕ) (small : op < 0x10000) where
  abbrev x : ℕ
  x = x_of op

  abbrev y : ℕ
  y = y_of op

  abbrev n : ℕ
  n = immediate_four op

  abbrev kk : ℕ
  kk = immediate_eight op

  x_lt : x < 16
  x_lt = omega arith

  y_lt : y < 16
  y_lt = omega arith

  kk_lt : kk < 0x100
  kk_lt = omega arith

  abbrev Fits : Text → Type 0
  Fits t = Reads symbols t op

  module _ (leader reach : Flags) (pc : ℕ) where
    abbrev s : Style
    s = asm_style leader reach

    abbrev raw : Fits (raw_word s pc op)
    raw = raw_Fits symbols op small leader reach pc

    pub arithmetic_Fits : (op / 2 ^ 12 == 8) ≡ true → Fits (arithmetic_text s pc op)
    unfolding arithmetic_text
    arithmetic_Fits h =
        branch Fits (n == 0)
          (λ k.
            two_regs symbols op small (text "LD") 8 0 refl h k
              (Forms.ld_regs symbols x y kk x_lt y_lt kk_lt))
          (λ _.
            branch Fits (n == 1)
              (λ k.
                two_regs symbols op small (text "OR") 8 1 refl h k
                  (Forms.or_regs symbols x y kk x_lt y_lt kk_lt))
              (λ _.
                branch Fits (n == 2)
                  (λ k.
                    two_regs symbols op small (text "AND") 8 2 refl h k
                      (Forms.and_regs symbols x y kk x_lt y_lt kk_lt))
                  (λ _.
                    branch Fits (n == 3)
                      (λ k.
                        two_regs symbols op small (text "XOR") 8 3 refl h k
                          (Forms.xor_regs symbols x y kk x_lt y_lt kk_lt))
                      (λ _.
                        branch Fits (n == 4)
                          (λ k.
                            two_regs symbols op small (text "ADD") 8 4 refl h k
                              (Forms.add_regs symbols x y kk x_lt y_lt kk_lt))
                          (λ _.
                            branch Fits (n == 5)
                              (λ k.
                                two_regs symbols op small (text "SUB") 8 5 refl h k
                                  (Forms.sub_regs symbols x y kk x_lt y_lt kk_lt))
                              (λ _.
                                branch Fits (n == 6)
                                  (λ k.
                                    two_regs symbols op small (text "SHR") 8 6 refl h k
                                      (Forms.shr_regs symbols x y kk x_lt y_lt kk_lt))
                                  (λ _.
                                    branch Fits (n == 7)
                                      (λ k.
                                        two_regs symbols op small (text "SUBN") 8 7 refl h k
                                          (Forms.subn_regs symbols x y kk x_lt y_lt kk_lt))
                                      (λ _.
                                        branch Fits (n == 14)
                                          (λ k.
                                            two_regs symbols op small (text "SHL") 8 14 refl h k
                                              (Forms.shl_regs symbols x y kk x_lt y_lt kk_lt))
                                          (λ _. raw)))))))))

    pub keyboard_Fits : (op / 2 ^ 12 == 0xe) ≡ true → Fits (keyboard_text s pc op)
    unfolding keyboard_text
    keyboard_Fits h =
        branch Fits (kk == 0x9e)
          (λ k. only_reg symbols op small (text "SKP") 0x9e refl h k (Misc.skp symbols x x_lt))
          (λ _.
            branch Fits (kk == 0xa1)
              (λ k.
                only_reg symbols op small (text "SKNP") 0xa1 refl h k (Misc.sknp symbols x x_lt))
              (λ _. raw))

    pub misc_Fits : (op / 2 ^ 12 == 0xf) ≡ true → Fits (misc_text s pc op)
    unfolding misc_text
    misc_Fits h =
        branch Fits (kk == 0x7)
          (λ k.
            reg_then symbols op small (text "LD") (text "DT") 0x7 refl refl h k
              (Misc.ld_delay symbols x x_lt))
          (λ _.
            branch Fits (kk == 0xa)
              (λ k.
                reg_then symbols op small (text "LD") (text "K") 0xa refl refl h k
                  (Misc.ld_key symbols x x_lt))
              (λ _.
                branch Fits (kk == 0x15)
                  (λ k.
                    then_reg symbols op small (text "LD") (text "DT") 0x15 refl refl h k
                      (Misc.ld_dt symbols x x_lt))
                  (λ _.
                    branch Fits (kk == 0x18)
                      (λ k.
                        then_reg symbols op small (text "LD") (text "ST") 0x18 refl refl h k
                          (Misc.ld_st symbols x x_lt))
                      (λ _.
                        branch Fits (kk == 0x1e)
                          (λ k.
                            then_reg symbols op small (text "ADD") (text "I") 0x1e refl refl h k
                              (Misc.add_i symbols x x_lt))
                          (λ _.
                            branch Fits (kk == 0x29)
                              (λ k.
                                then_reg symbols op small (text "LD") (text "F") 0x29 refl refl h k
                                  (Misc.ld_f symbols x x_lt))
                              (λ _.
                                branch Fits (kk == 0x33)
                                  (λ k.
                                    then_reg symbols op small (text "LD") (text "B") 0x33 refl refl
                                      h k (Misc.ld_b symbols x x_lt))
                                  (λ _.
                                    branch Fits (kk == 0x55)
                                      (λ k.
                                        then_reg symbols op small (text "LD") (text "[I]") 0x55 refl
                                          refl h k (Misc.ld_save symbols x x_lt))
                                      (λ _.
                                        branch Fits (kk == 0x65)
                                          (λ k.
                                            reg_then symbols op small (text "LD") (text "[I]") 0x65
                                              refl refl h k (Misc.ld_saved symbols x x_lt))
                                          (λ _. raw)))))))))
