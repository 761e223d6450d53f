-- ===== src/Disas/Printing/Reads/Whole.antt =====
-- The whole of `disassemble`, in the format of the assembler.
use chip_eight_jit.Common.{
  ℕ, ◌+◌, ◌*◌, ◌/◌, ◌^◌, ◌<◌, ◌≡◌, refl, ◌∙◌, ap, true, false, ◌||◌, List, [], ◌∷◌, ◌++◌, arith,
  ◌==◌, if◌then◌else◌,
}
use chip_eight_jit.Machine.{x_of, y_of, immediate_four, immediate_eight, immediate_twelve}
use chip_eight_jit.Asm.Result.{ok}
use chip_eight_jit.Asm.Lexer.{Text, text}
use chip_eight_jit.Asm.Values.{Symbol}
use chip_eight_jit.Asm.Instruction.{instruction}
use chip_eight_jit.Disas.Analysis.{Flags}
use chip_eight_jit.Disas.Format.{reg_text}
use chip_eight_jit.Disas.Format.Reading.{comma}
use chip_eight_jit.Disas.Printing.{Style, raw_word, switch_text, body}
use chip_eight_jit.Disas.Printing.Reads.{Reads, is_mnemonic, Reads-none}
use chip_eight_jit.Disas.Printing.Reads.Forms
use chip_eight_jit.Disas.Printing.Reads.Misc
use chip_eight_jit.Disas.Printing.Reads.Cases.{
  asm_style, Labelled, branch, two_regs, with_number, raw_Fits,
}
use chip_eight_jit.Disas.Printing.Reads.Tables.{arithmetic_Fits, keyboard_Fits, misc_Fits}
use chip_eight_jit.Disas.Printing.Reads.Switch.{
  address_Fits, load_address_Fits, indirect_Fits, draw_Fits,
}

module _ (symbols : List Symbol) (op : ℕ) (small : op < 0x10000) where
  abbrev x : ℕ
  x = x_of op

  abbrev y : ℕ
  y = y_of op

  abbrev n : ℕ
  n = immediate_four op

  abbrev kk : ℕ
  kk = immediate_eight op

  abbrev nnn : ℕ
  nnn = immediate_twelve op

  abbrev nibble : ℕ
  nibble = op / 2 ^ 12

  x_lt : x < 16
  x_lt = omega arith

  y_lt : y < 16
  y_lt = omega arith

  kk_lt : kk < 0x100
  kk_lt = omega arith

  nnn_lt : nnn < 0x1000
  nnn_lt = omega arith

  abbrev Fits : Text → Type 0
  Fits t = Reads symbols t op

  module _ (leader reach : Flags) (pc : ℕ) where
    abbrev s : Style
    s = asm_style leader reach

    abbrev raw : Fits (raw_word s pc op)
    raw = raw_Fits symbols op small leader reach pc

    -- The skips with two registers, where the low nibble is 0.
    skip_Fits :
        (m : Text) (d : ℕ)
        → is_mnemonic m ≡ true
        → (nibble == d) ≡ true
        → instruction symbols true (m ∷ reg_text x ∷ reg_text y ∷ [])
          ≡ ok (d * 0x1000 + x * 0x100 + y * 0x10 + 0)
        → Fits (
            if n == 0 || false
            then m ++ (b' ' ∷ (reg_text x ++ comma (reg_text y)))
            else raw_word s pc op)
    skip_Fits m d t h e =
        branch Fits (n == 0 || false)
          (λ k. two_regs symbols op small m d 0 t h (ground (arith, k)) e) (λ _. raw)

    module _ (known : Labelled symbols leader) where
      switch_Fits : Fits (switch_text s pc op)
      unfolding switch_text
      switch_Fits =
          branch Fits (nibble == 0x0) (λ h. raw)
            (λ f0.
              branch Fits (nibble == 0x1)
                (λ h.
                  address_Fits symbols op small leader reach pc known (text "JP") 1 refl h
                    (λ b v. Misc.jp symbols b nnn nnn_lt v))
                (λ f1.
                  branch Fits (nibble == 0x2)
                    (λ h.
                      address_Fits symbols op small leader reach pc known (text "CALL") 2 refl h
                        (λ b v. Misc.call symbols b nnn nnn_lt v))
                    (λ f2.
                      branch Fits (nibble == 0x3)
                        (λ h.
                          with_number symbols op small (text "SE") 3 refl h
                            (Forms.se_byte symbols x y kk x_lt y_lt kk_lt))
                        (λ f3.
                          branch Fits (nibble == 0x4)
                            (λ h.
                              with_number symbols op small (text "SNE") 4 refl h
                                (Forms.sne_byte symbols x y kk x_lt y_lt kk_lt))
                            (λ f4.
                              branch Fits (nibble == 0x5)
                                (λ h.
                                  skip_Fits (text "SE") 5 refl h
                                    (Forms.se_regs symbols x y kk x_lt y_lt kk_lt))
                                (λ f5.
                                  branch Fits (nibble == 0x6)
                                    (λ h.
                                      with_number symbols op small (text "LD") 6 refl h
                                        (Forms.ld_byte symbols x y kk x_lt y_lt kk_lt))
                                    (λ f6.
                                      branch Fits (nibble == 0x7)
                                        (λ h.
                                          with_number symbols op small (text "ADD") 7 refl h
                                            (Forms.add_byte symbols x y kk x_lt y_lt kk_lt))
                                        (λ f7.
                                          branch Fits (nibble == 0x8)
                                            (λ h.
                                              arithmetic_Fits symbols op small leader reach pc h)
                                            (λ f8.
                                              branch Fits (nibble == 0x9)
                                                (λ h.
                                                  skip_Fits (text "SNE") 9 refl h
                                                    (Forms.sne_regs symbols x y kk x_lt y_lt kk_lt))
                                                (λ f9.
                                                  branch Fits (nibble == 0xa)
                                                    (λ h.
                                                      load_address_Fits symbols op small leader
                                                        reach pc known h)
                                                    (λ f10.
                                                      branch Fits (nibble == 0xb)
                                                        (λ h.
                                                          indirect_Fits symbols op small leader
                                                            reach pc known h)
                                                        (λ f11.
                                                          branch Fits (nibble == 0xc)
                                                            (λ h.
                                                            with_number symbols op small
                                                            (text "RND") 12 refl h
                                                            (Forms.rnd_byte symbols x y kk x_lt y_lt
                                                            kk_lt))
                                                            (λ f12.
                                                            branch Fits (nibble == 0xd)
                                                            (λ h.
                                                            draw_Fits symbols op small leader reach
                                                            pc known h)
                                                            (λ f13.
                                                            branch Fits (nibble == 0xe)
                                                            (λ h.
                                                            keyboard_Fits symbols op small leader
                                                            reach pc h)
                                                            (λ f14.
                                                            misc_Fits symbols op small leader reach
                                                            pc (ground arith))))))))))))))))

      pub body-Reads : Fits (body s pc op)
      unfolding body
      body-Reads =
          branch Fits (op == 0x00e0)
            (λ k. Reads-none symbols op (text "CLS") refl (Misc.cls symbols ∙ ap ok (ground arith)))
            (λ _.
              branch Fits (op == 0x00ee)
                (λ k.
                  Reads-none symbols op (text "RET") refl (Misc.ret symbols ∙ ap ok (ground arith)))
                (λ _. switch_Fits))
