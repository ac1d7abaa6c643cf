-- ===== src/Mailbox/Tests.antt =====
-- A graphics processor that is busy at first, replies to another message and then to this one
-- (src/peripherals/mailbox.c, src/peripherals/framebuffer.c).
use pell_os.Base.{
  ℕ, ◌+◌, ◌≡◌, ◌⊎◌, refl, arith, some, List, [], ◌∷◌, ◌++◌, set, replicate, ◌==◌, ltb,
  if◌then◌else◌,
}
use pell_os.Mailbox.{VideoCore, mbox_full, mbox_response, request_word}
use pell_os.Mailbox.Reply.{Clears, Replies, Exchange}
use pell_os.Framebuffer.Screen.{
  Screen, message, with_message, mbox_ch_prop, framebuffer_init, IsGranted, granted,
  framebuffer_init-IsGranted,
}

abbrev mbox_adr : ℕ
mbox_adr = 0x9_0040

-- The number of polls, and the message.
abbrev Device : Type 0
Device = ℕ × List ℕ

-- It grants the screen, with its lines 7680 bytes long.
abbrev answer : List ℕ → List ℕ
answer mbox = set (set mbox 1 mbox_response) 33 7680

abbrev device : VideoCore Device
device = record {
  status = λ s. (if s.0 == 0 then mbox_full else 0, (s.0 + 1, s.1));
  read = λ s. if ltb s.0 4 then (5, s) else (request_word mbox_adr mbox_ch_prop, (s.0, answer s.1));
  write = λ r s. s;
  mbox = λ s. s.1;
  set_mbox = λ m s. (s.0, m);
}

abbrev no_screen : Screen
no_screen = record { width = 0; height = 0; pitch = 0; isrgb = 0; fb = 0 }

abbrev start : Device
start = (0, replicate 36 0)

abbrev sent : List ℕ
sent = message ++ (0 ∷ [])

exchange :
    Exchange device 2 2
      (request_word mbox_adr mbox_ch_prop)
      (with_message device start)
      (4, answer sent)
unfolding Clears Replies
exchange = record {
  polls = 1;
  soon = omega arith;
  free = (2, sent);
  clears = (omega arith, (refl, refl));
  foreign = 1;
  few = omega arith;
  replies = (
    0,
    omega arith,
    (3, sent),
    (refl, refl),
    omega arith,
    (0, omega arith, (4, sent), (refl, refl), refl, refl),
  );
}

framebuffer_init-IsGranted_example :
    (screen : Screen) × (s : Device) × (framebuffer_init device 2 2 mbox_adr no_screen start
      ≡ some (screen, s))
    × ((IsGranted device (answer sent) × (screen ≡ granted device (answer sent)))
        ⊎ ((¬ IsGranted device (answer sent)) × (screen ≡ no_screen)))
framebuffer_init-IsGranted_example =
    framebuffer_init-IsGranted Device device 2 2 mbox_adr no_screen start (4, answer sent) exchange
