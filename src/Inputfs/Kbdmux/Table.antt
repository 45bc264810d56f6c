-- ===== src/Inputfs/Kbdmux/Table.antt =====
-- The translation table of inputfs_kbdmux.c: from usages of the HID keyboard page to AT scancodes.
use awase.Base.{ℕ, zero, suc, List, [], ◌∷◌}

-- By HID usage: 0 for none, else the scancode, with a prefix byte in the high byte for some.
abbrev pub trtab : List ℕ
trtab =
    0 ∷ 0 ∷ 0 ∷ 0 ∷ 30 ∷ 48 ∷ 46 ∷ 32 ∷ 18 ∷ 33 ∷ 34 ∷ 35 ∷ 23 ∷ 36 ∷ 37 ∷ 38 ∷ 50 ∷ 49 ∷ 24 ∷ 25
    ∷ 16 ∷ 19 ∷ 31 ∷ 20 ∷ 22 ∷ 47 ∷ 17 ∷ 45 ∷ 21 ∷ 44 ∷ 2 ∷ 3 ∷ 4 ∷ 5 ∷ 6 ∷ 7 ∷ 8 ∷ 9 ∷ 10 ∷ 11 ∷ 28
    ∷ 1 ∷ 14 ∷ 15 ∷ 57 ∷ 12 ∷ 13 ∷ 26 ∷ 27 ∷ 43 ∷ 43 ∷ 39 ∷ 40 ∷ 41 ∷ 51 ∷ 52 ∷ 53 ∷ 58 ∷ 59 ∷ 60
    ∷ 61 ∷ 62 ∷ 63 ∷ 64 ∷ 65 ∷ 66 ∷ 67 ∷ 68 ∷ 87 ∷ 88 ∷ 92 ∷ 70 ∷ 104 ∷ 0xE052 ∷ 0xE047 ∷ 0xE049
    ∷ 0xE053 ∷ 0xE04F ∷ 0xE051 ∷ 0xE04D ∷ 0xE04B ∷ 0xE050 ∷ 0xE048 ∷ 69 ∷ 0xE035 ∷ 55 ∷ 74 ∷ 78
    ∷ 0xE01C ∷ 79 ∷ 80 ∷ 81 ∷ 75 ∷ 76 ∷ 77 ∷ 71 ∷ 72 ∷ 73 ∷ 82 ∷ 83 ∷ 86 ∷ 107 ∷ 122 ∷ 0 ∷ 0 ∷ 0 ∷ 0
    ∷ 0 ∷ 0 ∷ 0 ∷ 0 ∷ 0 ∷ 0 ∷ 0 ∷ 0 ∷ 0 ∷ 115 ∷ 108 ∷ 111 ∷ 113 ∷ 109 ∷ 110 ∷ 112 ∷ 118 ∷ 114 ∷ 116
    ∷ 117 ∷ 119 ∷ 121 ∷ 120 ∷ 0 ∷ 0 ∷ 0 ∷ 0 ∷ 0 ∷ 123 ∷ 124 ∷ 125 ∷ 126 ∷ 127 ∷ 128 ∷ 0 ∷ 0 ∷ 0
    ∷ 129 ∷ 130 ∷ 0 ∷ 0 ∷ 0 ∷ 0 ∷ 0 ∷ 0 ∷ 0 ∷ 0 ∷ 0 ∷ 0 ∷ 0 ∷ 0 ∷ 0 ∷ 0 ∷ 0 ∷ 0 ∷ 0 ∷ 0 ∷ 0 ∷ 0 ∷ 0
    ∷ 0 ∷ 0 ∷ 0 ∷ 0 ∷ 0 ∷ 0 ∷ 0 ∷ 0 ∷ 0 ∷ 0 ∷ 0 ∷ 0 ∷ 0 ∷ 0 ∷ 0 ∷ 0 ∷ 0 ∷ 0 ∷ 0 ∷ 0 ∷ 0 ∷ 0 ∷ 0 ∷ 0
    ∷ 0 ∷ 0 ∷ 0 ∷ 0 ∷ 0 ∷ 0 ∷ 0 ∷ 0 ∷ 0 ∷ 0 ∷ 0 ∷ 0 ∷ 0 ∷ 0 ∷ 0 ∷ 0 ∷ 0 ∷ 0 ∷ 0 ∷ 0 ∷ 0 ∷ 0 ∷ 0 ∷ 0
    ∷ 0 ∷ 0 ∷ 0 ∷ 0 ∷ 0 ∷ 0 ∷ 0 ∷ 0 ∷ 0 ∷ 29 ∷ 42 ∷ 56 ∷ 0xE05B ∷ 0xE01D ∷ 54 ∷ 0xE038 ∷ 0xE05C ∷ 0
    ∷ 0 ∷ 0 ∷ 0 ∷ 0 ∷ 0 ∷ 0 ∷ 0 ∷ 0 ∷ 0 ∷ 0 ∷ 0 ∷ 0 ∷ 0 ∷ 0 ∷ 0 ∷ 0 ∷ 0 ∷ 0 ∷ 0 ∷ 0 ∷ 0 ∷ 0 ∷ 0 ∷ []

-- `inputfs_kbd_trtab[hid_usage]`
abbrev pub entry_at : List ℕ → ℕ → ℕ
entry_at [] usage = 0
entry_at (e ∷ es) zero = e
entry_at (e ∷ es) (suc usage) = entry_at es usage
