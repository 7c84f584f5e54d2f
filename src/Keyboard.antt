-- ===== src/Keyboard.antt =====
-- src/drivers/keyboard/keyboard.c: scancodes to characters and key events, each in a ring of 128. The status
-- and the scancode that the ports give are arguments of the interrupt handler.
pub mod Queue
mod Tests
use mo_os.Prelude.{
  ℕ, ◌+◌, ◌-◌, ◌%◌, bit_and, Bool, true, false, not, ◌&&◌, ◌||◌, Option, none, some, List, [], ◌∷◌,
  ◌++◌, ltb, leb, ◌==◌, if◌then◌else◌, length, get_or, set,
}

abbrev pub ring_size : ℕ
ring_size = 128

abbrev pub keymap : List ℕ
keymap =
    0 ∷ 27 ∷ b'1' ∷ b'2' ∷ b'3' ∷ b'4' ∷ b'5' ∷ b'6' ∷ b'7' ∷ b'8' ∷ b'9' ∷ b'0' ∷ b'-' ∷ b'=' ∷ 8
    ∷ 9 ∷ b'q' ∷ b'w' ∷ b'e' ∷ b'r' ∷ b't' ∷ b'y' ∷ b'u' ∷ b'i' ∷ b'o' ∷ b'p' ∷ 0x5b ∷ 0x5d ∷ 10 ∷ 0
    ∷ b'a' ∷ b's' ∷ b'd' ∷ b'f' ∷ b'g' ∷ b'h' ∷ b'j' ∷ b'k' ∷ b'l' ∷ 0x3b ∷ 0x27 ∷ 0x60 ∷ 0 ∷ 0x5c
    ∷ b'z' ∷ b'x' ∷ b'c' ∷ b'v' ∷ b'b' ∷ b'n' ∷ b'm' ∷ 0x2c ∷ 0x2e ∷ b'/' ∷ 0 ∷ b'*' ∷ 0 ∷ 0x20 ∷ []

abbrev pub keymap_shift : List ℕ
keymap_shift =
    0 ∷ 27 ∷ b'!' ∷ 0x40 ∷ b'#' ∷ b'$' ∷ b'%' ∷ b'^' ∷ b'&' ∷ b'*' ∷ 0x28 ∷ 0x29 ∷ b'_' ∷ b'+' ∷ 8
    ∷ 9 ∷ b'Q' ∷ b'W' ∷ b'E' ∷ b'R' ∷ b'T' ∷ b'Y' ∷ b'U' ∷ b'I' ∷ b'O' ∷ b'P' ∷ 0x7b ∷ 0x7d ∷ 10 ∷ 0
    ∷ b'A' ∷ b'S' ∷ b'D' ∷ b'F' ∷ b'G' ∷ b'H' ∷ b'J' ∷ b'K' ∷ b'L' ∷ b':' ∷ 0x22 ∷ b'~' ∷ 0 ∷ b'|'
    ∷ b'Z' ∷ b'X' ∷ b'C' ∷ b'V' ∷ b'B' ∷ b'N' ∷ b'M' ∷ b'<' ∷ b'>' ∷ b'?' ∷ 0 ∷ b'*' ∷ 0 ∷ 0x20 ∷ []

-- A ring with the next slot to write and the next slot to read.
pub record KeyRing : Type 0 where
  pub slots : List ℕ
  pub head : ℕ
  pub tail : ℕ

pub record Keyboard : Type 0 where
  pub chars : KeyRing
  pub events : KeyRing
  pub shift_held : Bool
  pub ctrl_held : Bool
  pub caps_lock : Bool
  pub extended : Bool
  pub ctrl_c_pressed : Bool

abbrev pub next_slot : ℕ → ℕ
next_slot i = (i + 1) % ring_size

-- A full buffer drops the new character.
pub buffer_push : ℕ → KeyRing → KeyRing
buffer_push c r =
    if next_slot r.head == r.tail
    then r
    else record r { slots = set r.slots r.head c; head = next_slot r.head }

-- A full queue loses its oldest event.
pub event_push : ℕ → KeyRing → KeyRing
event_push e r = record r {
  slots = set r.slots r.head e;
  head = next_slot r.head;
  tail = if next_slot r.head == r.tail then next_slot r.tail else r.tail;
}

-- `none` is -1.
pub ring_get : KeyRing → Option ℕ × KeyRing
ring_get r =
    if r.tail == r.head
    then (none, r)
    else (some (get_or r.slots r.tail 0), record r { tail = next_slot r.tail })

pub keyboard_getchar : Keyboard → Option ℕ × Keyboard
keyboard_getchar k = let (c, r) = ring_get k.chars in (c, record k { chars = r })

pub keyboard_get_event : Keyboard → Option ℕ × Keyboard
keyboard_get_event k = let (e, r) = ring_get k.events in (e, record k { events = r })

pub keyboard_take_ctrl_c : Keyboard → Bool × Keyboard
keyboard_take_ctrl_c k = (k.ctrl_c_pressed, record k { ctrl_c_pressed = false })

pub keyboard_flush : Keyboard → Keyboard
keyboard_flush k = record k {
  chars = record (k.chars) { tail = k.chars.head };
  ctrl_c_pressed = false;
}

pub keyboard_flush_events : Keyboard → Keyboard
keyboard_flush_events k = record k { events = record (k.events) { tail = k.events.head } }

-- The `switch` statements, as tables from scancodes to key codes. 0 is no key.
abbrev pub look_up : ℕ → List (ℕ × ℕ) → ℕ → ℕ
look_up s [] d = d
look_up s ((t, v) ∷ rest) d = let r = look_up s rest d in if s == t then v else r

abbrev pub arrow_keys : List (ℕ × ℕ)
arrow_keys =
    (0x48, 0x80)
    ∷ (0x50, 0x81)
    ∷ (0x4b, 0x82)
    ∷ (0x4d, 0x83)
    ∷ (0x47, 0x84)
    ∷ (0x4f, 0x85)
    ∷ (0x53, 0x86)
    ∷ []

abbrev pub extended_keys : List (ℕ × ℕ)
extended_keys =
    arrow_keys
    ++ ((0x49, 0x96) ∷ (0x51, 0x97) ∷ (0x52, 0x98) ∷ (0x1d, 0x87) ∷ (0x38, 0x89) ∷ (0x1c, 10) ∷ [])

abbrev pub modifier_keys : List (ℕ × ℕ)
modifier_keys =
    (0x1d, 0x87) ∷ (0x2a, 0x88) ∷ (0x36, 0x88) ∷ (0x38, 0x89) ∷ (0x57, 0x94) ∷ (0x58, 0x95) ∷ []

pub event_key : ℕ → Bool → ℕ
event_key scancode is_extended =
    if is_extended
    then look_up scancode extended_keys 0
    else look_up scancode modifier_keys (
        if leb 0x3b scancode && leb scancode 0x44
        then 0x8a + scancode - 0x3b
        else if ltb scancode (length keymap)
        then get_or keymap scancode 0
        else 0)

abbrev pub is_lower : ℕ → Bool
is_lower c = leb b'a' c && leb c b'z'

pub translate : Keyboard → ℕ → ℕ
translate k scancode =
    let c = get_or keymap scancode 0 in
    let upper = if is_lower c && k.caps_lock then not k.shift_held else k.shift_held in
    if leb (length keymap) scancode then 0 else if upper then get_or keymap_shift scancode 0 else c

-- What follows the event of a key after 0xE0.
pub extended_key : ℕ → Bool → Keyboard → Keyboard
extended_key scancode released k =
    let plain = record k { extended = false } in
    let code = look_up scancode arrow_keys 0 in
    if scancode == 0x1d
    then record plain { ctrl_held = not released }
    else if released || (code == 0)
    then plain
    else record plain { chars = buffer_push code k.chars }

-- The character of a key that is pressed.
pub type_char : ℕ → Keyboard → Keyboard
type_char c k =
    if c == 0
    then k
    else if k.ctrl_held && ((c == b'c') || (c == b'C'))
    then record k { ctrl_c_pressed = true; chars = buffer_push 0x03 k.chars }
    else if k.ctrl_held && ((c == b'd') || (c == b'D'))
    then record k { chars = buffer_push 0x04 k.chars }
    else record k { chars = buffer_push c k.chars }

pub plain_key : ℕ → Bool → Keyboard → Keyboard
plain_key scancode released k =
    if (scancode == 0x2a) || (scancode == 0x36)
    then record k { shift_held = not released }
    else if scancode == 0x1d
    then record k { ctrl_held = not released }
    else if scancode == 0x3a
    then (if released then k else record k { caps_lock = not k.caps_lock })
    else if released
    then k
    else type_char (translate k scancode) k

pub keyboard_handle_interrupt : ℕ → ℕ → Keyboard → Keyboard
keyboard_handle_interrupt status data_byte k =
    let released = leb 0x80 data_byte in
    let scancode = data_byte % 0x80 in
    let key = event_key scancode k.extended in
    let noted =
      if key == 0
      then k
      else record k { events = event_push (key + (if released then 0x100 else 0)) k.events } in
    if bit_and status 0x21 == 0x21
    then k
    else if data_byte == 0xe0
    then record k { extended = true }
    else if k.extended
    then extended_key scancode released noted
    else plain_key scancode released noted
