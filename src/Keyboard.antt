-- ===== src/Keyboard.antt =====
-- kernel/keyboard.c: scan codes to characters, and the ring of the last twenty lines. The codes
-- that the keyboard sends are a list; a `char` is its byte, and a line of the history its string.
pub mod History
pub mod Line
pub mod Bounds
pub mod Readline
mod Tests
use seng21213_os.Prelude.{
  ℕ, zero, suc, ◌+◌, ◌-◌, ◌*◌, ◌%◌, Bool, true, false, not, ◌&&◌, ◌||◌, Option, none, some, List,
  [], ◌∷◌, ◌++◌, ltb, leb, ◌==◌, if◌then◌else◌, update,
}

abbrev pub history_size : ℕ
history_size = 20

abbrev pub kb_key_up : ℕ
kb_key_up = 0xF1

abbrev pub kb_key_down : ℕ
kb_key_down = 0xF2

abbrev pub kb_key_left : ℕ
kb_key_left = 0xF3

abbrev pub kb_key_right : ℕ
kb_key_right = 0xF4

abbrev pub kb_key_pgup : ℕ
kb_key_pgup = 0xF5

abbrev pub kb_key_pgdn : ℕ
kb_key_pgdn = 0xF6

-- An entry of a table of 128 characters, whose initialiser may be shorter.
unfoldable pub entry : List ℕ → ℕ → ℕ
entry [] sc = 0
entry (c ∷ table) zero = c
entry (c ∷ table) (suc sc) = entry table sc

unfoldable pub zeros : ℕ → List ℕ
zeros zero = []
zeros (suc n) = 0 ∷ zeros n

abbrev pub sc_ascii : List ℕ
sc_ascii =
    0
    ∷ 27
    ∷ 49
    ∷ 50
    ∷ 51
    ∷ 52
    ∷ 53
    ∷ 54
    ∷ 55
    ∷ 56
    ∷ 57
    ∷ 48
    ∷ 45
    ∷ 61
    ∷ 8
    ∷ 9
    ∷ 113
    ∷ 119
    ∷ 101
    ∷ 114
    ∷ 116
    ∷ 121
    ∷ 117
    ∷ 105
    ∷ 111
    ∷ 112
    ∷ 91
    ∷ 93
    ∷ 10
    ∷ 0
    ∷ 97
    ∷ 115
    ∷ 100
    ∷ 102
    ∷ 103
    ∷ 104
    ∷ 106
    ∷ 107
    ∷ 108
    ∷ 59
    ∷ 39
    ∷ 96
    ∷ 0
    ∷ 92
    ∷ 122
    ∷ 120
    ∷ 99
    ∷ 118
    ∷ 98
    ∷ 110
    ∷ 109
    ∷ 44
    ∷ 46
    ∷ 47
    ∷ 0
    ∷ 42
    ∷ 0
    ∷ 32
    ∷ 0
    ∷ (zeros 12 ++ 55 ∷ 56 ∷ 57 ∷ 45 ∷ 52 ∷ 53 ∷ 54 ∷ 43 ∷ 49 ∷ 50 ∷ 51 ∷ 48 ∷ 46 ∷ [])

abbrev pub sc_ascii_shift : List ℕ
sc_ascii_shift =
    0 ∷ 27 ∷ 33 ∷ 64 ∷ 35 ∷ 36 ∷ 37 ∷ 94 ∷ 38 ∷ 42 ∷ 40 ∷ 41 ∷ 95 ∷ 43 ∷ 8 ∷ 9 ∷ 81 ∷ 87 ∷ 69 ∷ 82
    ∷ 84 ∷ 89 ∷ 85 ∷ 73 ∷ 79 ∷ 80 ∷ 123 ∷ 125 ∷ 10 ∷ 0 ∷ 65 ∷ 83 ∷ 68 ∷ 70 ∷ 71 ∷ 72 ∷ 74 ∷ 75 ∷ 76
    ∷ 58 ∷ 34 ∷ 126 ∷ 0 ∷ 124 ∷ 90 ∷ 88 ∷ 67 ∷ 86 ∷ 66 ∷ 78 ∷ 77 ∷ 60 ∷ 62 ∷ 63 ∷ 0 ∷ 42 ∷ 0 ∷ 32
    ∷ 0 ∷ []

-- The static variables.
pub record Keyboard : Type 0 where
  pub shift_held : Bool
  pub caps_lock : Bool
  pub ctrl_held : Bool
  pub alt_held : Bool
  pub altgr_held : Bool
  pub extended_code : Bool
  pub history : ℕ → List ℕ
  pub history_count : ℕ
  pub history_next : ℕ

unfoldable pub k_strlen : List ℕ → ℕ
k_strlen [] = 0
k_strlen (c ∷ s) = suc (k_strlen s)

unfoldable pub k_streq : List ℕ → List ℕ → Bool
k_streq [] [] = true
k_streq [] (d ∷ b) = false
k_streq (c ∷ a) [] = false
k_streq (c ∷ a) (d ∷ b) = let rest = k_streq a b in if c == d then rest else false

-- `history_add` for a line that is kept. A row has KB_BUF_SIZE = 256 bytes: the line fits, as one
-- from the buffer of 256 bytes that the only caller of `kb_readline` has.
abbrev pub push_line : Keyboard → List ℕ → Keyboard
push_line s line = record s {
  history = update s.history s.history_next line;
  history_next = (s.history_next + 1) % history_size;
  history_count = if ltb s.history_count history_size then s.history_count + 1 else s.history_count;
}

-- The line that was added last.
abbrev pub newest : Keyboard → List ℕ
newest s = s.history ((s.history_next + history_size - 1) % history_size)

abbrev pub is_empty_line : List ℕ → Bool
is_empty_line [] = true
is_empty_line (c ∷ s) = false

unfoldable pub history_add : Keyboard → List ℕ → Keyboard
history_add s line =
    if is_empty_line line
    then s
    else if ltb 0 s.history_count && k_streq (newest s) line
    then s
    else push_line s line

-- `history_get`, for a position that is not negative. With at most twenty lines the sum that is
-- reduced is not negative.
unfoldable pub history_get : Keyboard → ℕ → Option (List ℕ)
history_get s position =
    let oldest = (s.history_next + history_size - s.history_count) % history_size in
    if leb s.history_count position
    then none
    else some (s.history ((oldest + position) % history_size))

abbrev pub is_lower : ℕ → Bool
is_lower c = leb 97 c && leb c 122

abbrev pub same_bool : Bool → Bool → Bool
same_bool true b = b
same_bool false b = not b

unfoldable pub apply_caps_shift : Keyboard → ℕ → ℕ → ℕ
apply_caps_shift s normal shifted =
    if not (is_lower normal)
    then (if s.shift_held then shifted else normal)
    else if same_bool s.caps_lock s.shift_held
    then normal
    else shifted

unfoldable pub altgr_translate : ℕ → ℕ
altgr_translate sc =
    if sc == 0x03
    then 64
    else if sc == 0x04
    then 35
    else if sc == 0x1A
    then 123
    else if sc == 0x1B
    then 125
    else if sc == 0x27
    then 126
    else if sc == 0x2B
    then 124
    else 0

-- The keys of an extended code; 0 for another code.
unfoldable pub extended_key : ℕ → ℕ
extended_key sc =
    if sc == 0x48
    then kb_key_up
    else if sc == 0x50
    then kb_key_down
    else if sc == 0x4B
    then kb_key_left
    else if sc == 0x4D
    then kb_key_right
    else if sc == 0x49
    then kb_key_pgup
    else if sc == 0x51
    then kb_key_pgdn
    else 0

unfoldable pub handle_extended_press : Keyboard → ℕ → Keyboard × ℕ
handle_extended_press s sc =
    if sc == 0x1D
    then (record s { ctrl_held = true }, 0)
    else if sc == 0x38
    then (record s { altgr_held = true; alt_held = true }, 0)
    else (s, extended_key sc)

unfoldable pub handle_extended_release : Keyboard → ℕ → Keyboard
handle_extended_release s sc =
    let t = if sc == 0x1D then record s { ctrl_held = false } else s in
    if sc == 0x38 then record t { altgr_held = false; alt_held = false } else t

-- `kb_init`, which also drops the codes that the keyboard has sent before.
unfoldable pub kb_init : Keyboard → Keyboard
kb_init s = record s {
  shift_held = false;
  caps_lock = false;
  ctrl_held = false;
  alt_held = false;
  altgr_held = false;
  extended_code = false;
  history_count = 0;
  history_next = 0;
}

-- A char that is returned, unless it is 0.
abbrev pub unless_zero : ℕ → Option ℕ
unless_zero c = if c == 0 then none else some c

-- A code after 0xE0.
unfoldable pub extended : Keyboard → ℕ → Keyboard × Option ℕ
extended s sc =
    let t = record s { extended_code = false } in
    let (u, key) = handle_extended_press t sc in
    if leb 128 sc then (handle_extended_release t (sc - 128), none) else (u, unless_zero key)

-- A key that is let go.
unfoldable pub key_release : Keyboard → ℕ → Keyboard
key_release s release =
    if release == 0x2A || release == 0x36
    then record s { shift_held = false }
    else if release == 0x1D
    then record s { ctrl_held = false }
    else if release == 0x38
    then record s { alt_held = false }
    else s

-- A key with a character.
unfoldable pub key_char : Keyboard → ℕ → Option ℕ
key_char s sc =
    let normal = entry sc_ascii sc in
    let shifted = entry sc_ascii_shift sc in
    let altgr = altgr_translate sc in
    if normal == 0 && shifted == 0
    then none
    else if s.ctrl_held && is_lower normal
    then some (normal - 97 + 1)
    else if s.altgr_held && not (altgr == 0)
    then some altgr
    else some (apply_caps_shift s normal shifted)

unfoldable pub key_press : Keyboard → ℕ → Keyboard × Option ℕ
key_press s sc =
    if sc == 0x2A || sc == 0x36
    then (record s { shift_held = true }, none)
    else if sc == 0x1D
    then (record s { ctrl_held = true }, none)
    else if sc == 0x38
    then (record s { alt_held = true; altgr_held = false }, none)
    else if sc == 0x3A
    then (record s { caps_lock = not s.caps_lock }, none)
    else (s, key_char s sc)

-- One round of the loop of `kb_getchar`, for a byte from the keyboard: `none` goes on.
unfoldable pub scan : Keyboard → ℕ → Keyboard × Option ℕ
scan s sc =
    if sc == 0xE0
    then (record s { extended_code = true }, none)
    else if s.extended_code
    then extended s sc
    else if leb 128 sc
    then (key_release s (sc - 128), none)
    else key_press s sc

-- `kb_getchar`: the character and the codes that are left; `none` when it waits for more codes.
unfoldable pub kb_getchar : Keyboard → List ℕ → Keyboard × Option (ℕ × List ℕ)
kb_getchar s [] = (s, none)
kb_getchar s (sc ∷ codes) =
    let (t, key) = scan s sc in
    let rest = kb_getchar t codes in elim key [ none ↦ rest | some c ↦ (t, some (c, codes)) ]
