-- ===== src/Keyboard/Tests.antt =====
-- Keys on an empty keyboard: runs of the handler, and the theorems at its rings.
use mo_os.Prelude.{◌≡◌, refl, false, some, arith, replicate}
use mo_os.Keyboard.{
  buffer_push, event_push, ring_get, keyboard_getchar, event_key, translate, type_char, plain_key,
  keyboard_handle_interrupt, KeyRing, Keyboard,
}
use mo_os.Keyboard.Queue.{IsRing}

abbrev empty_ring : KeyRing
empty_ring = record { slots = replicate 128 0; head = 127; tail = 127 }

abbrev full_ring : KeyRing
full_ring = record { slots = replicate 128 7; head = 4; tail = 5 }

abbrev fresh : Keyboard
fresh = record {
  chars = empty_ring;
  events = empty_ring;
  shift_held = false;
  ctrl_held = false;
  caps_lock = false;
  extended = false;
  ctrl_c_pressed = false;
}

empty_ring-IsRing : IsRing empty_ring
empty_ring-IsRing = record { storage = refl; head_in = omega arith; tail_in = omega arith }

full_ring-IsRing : IsRing full_ring
full_ring-IsRing = record { storage = refl; head_in = omega arith; tail_in = omega arith }

-- Shift down, then the key of the letter q.
types_upper_q :
    (keyboard_getchar (keyboard_handle_interrupt 1 0x10 (keyboard_handle_interrupt 1 0x2a fresh))).0
    ≡ some b'Q'
unfolding keyboard_getchar ring_get keyboard_handle_interrupt plain_key type_char translate
    buffer_push event_key event_push
types_upper_q = refl
