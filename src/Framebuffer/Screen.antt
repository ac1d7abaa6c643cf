-- ===== src/Framebuffer/Screen.antt =====
-- `framebuffer_init` (src/peripherals/framebuffer.c): the message that asks for a screen, and what is
-- taken from the reply.
use pell_os.Base.{
  ℕ, ◌*◌, ◌≡◌, ◌≢◌, refl, ap, arith, inl, inr, ◌⊎◌, Bool, not, ◌&&◌, Option, some, List, [], ◌∷◌,
  ◌++◌, drop, length, ltb, ltb→lt, Bool-cases, ==_iff, get_or-ge, get_or-set_self, get_or-set_ne,
  ◌<◌, set, get_or, bit_and, bit_or, ◌==◌, if◌then◌else◌, ◌>>=◌,
}
use pell_os.Mm.Paging.{virtual_address_start}
use pell_os.Mailbox.{VideoCore, mailbox_call, mbox_response, request_word}
use pell_os.Mailbox.Reply.{Exchange, mailbox_call-Exchange}

-- The variables of the frame buffer.
pub record Screen : Type 0 where
  pub width : ℕ
  pub height : ℕ
  pub pitch : ℕ
  pub isrgb : ℕ
  pub fb : ℕ

abbrev pub mbox_ch_prop : ℕ
mbox_ch_prop = 8

abbrev pub mbox_request : ℕ
mbox_request = 0

abbrev mbox_tag_setphywh : ℕ
mbox_tag_setphywh = 0x48003

abbrev mbox_tag_setvirtwh : ℕ
mbox_tag_setvirtwh = 0x48004

abbrev mbox_tag_setvirtoff : ℕ
mbox_tag_setvirtoff = 0x48009

abbrev mbox_tag_setdepth : ℕ
mbox_tag_setdepth = 0x48005

abbrev mbox_tag_setpxlordr : ℕ
mbox_tag_setpxlordr = 0x48006

abbrev mbox_tag_getfb : ℕ
mbox_tag_getfb = 0x40001

abbrev mbox_tag_getpitch : ℕ
mbox_tag_getpitch = 0x40008

abbrev mbox_tag_last : ℕ
mbox_tag_last = 0

-- The 35 words that are stored.
abbrev pub message : List ℕ
message =
    35 * 4
    ∷ mbox_request
    ∷ mbox_tag_setphywh
    ∷ 8
    ∷ 0
    ∷ 1920
    ∷ 1080
    ∷ mbox_tag_setvirtwh
    ∷ 8
    ∷ 8
    ∷ 1920
    ∷ 1080
    ∷ mbox_tag_setvirtoff
    ∷ 8
    ∷ 8
    ∷ 0
    ∷ 0
    ∷ mbox_tag_setdepth
    ∷ 4
    ∷ 4
    ∷ 32
    ∷ mbox_tag_setpxlordr
    ∷ 4
    ∷ 4
    ∷ 1
    ∷ mbox_tag_getfb
    ∷ 8
    ∷ 8
    ∷ 4096
    ∷ 0
    ∷ mbox_tag_getpitch
    ∷ 4
    ∷ 4
    ∷ 0
    ∷ mbox_tag_last
    ∷ []

-- `mbox[i]`
abbrev pub word_at : List ℕ → ℕ → ℕ
word_at mbox i = get_or mbox i 0

module _ {S : Type 0} (v : VideoCore S) where
  -- The state with the message.
  abbrev pub with_message : S → S
  with_message s = v.set_mbox (message ++ drop 35 (v.mbox s)) s

  -- The part after the call.
  unfoldable pub take_screen : Screen → Bool → S → Screen × S
  take_screen screen success s =
      let mbox = v.mbox s in
      let adr = bit_and (word_at mbox 28) 0x3FFF_FFFF in
      let mbox' = set mbox 28 adr in
      if success && (word_at mbox 20 == 32) && not (word_at mbox 28 == 0)
      then (
        record {
          width = word_at mbox' 10;
          height = word_at mbox' 11;
          pitch = word_at mbox' 33;
          isrgb = word_at mbox' 24;
          fb = bit_or (word_at mbox' 28) virtual_address_start;
        },
        v.set_mbox mbox' s,
      )
      else (screen, s)

  unfoldable pub framebuffer_init : (rounds fuel mbox_adr : ℕ) → Screen → S → Option (Screen × S)
  unfolding mailbox_call take_screen
  framebuffer_init rounds fuel mbox_adr screen s = do
    (success, s') ← mailbox_call v rounds fuel mbox_adr mbox_ch_prop (with_message s)
    some (take_screen screen success s')

  -- The reply grants a screen of 32 bits per pixel.
  abbrev pub IsGranted : List ℕ → Type 0
  IsGranted mbox = (word_at mbox 1 ≡ mbox_response) × (word_at mbox 20 ≡ 32) × (word_at mbox 28 ≢ 0)

  -- The screen of the reply.
  abbrev pub granted : List ℕ → Screen
  granted mbox = record {
    width = word_at mbox 10;
    height = word_at mbox 11;
    pitch = word_at mbox 33;
    isrgb = word_at mbox 24;
    fb = bit_or (bit_and (word_at mbox 28) 0x3FFF_FFFF) virtual_address_start;
  }

  -- The word 28 is the only one that `&=` changes.
  changed_word :
      (mbox : List ℕ) (x : ℕ)
      → word_at mbox 28 ≢ 0
      → (word_at (set mbox 28 x) 28 ≡ x)
        × ((i : ℕ) → 28 ≢ i → word_at (set mbox 28 x) i ≡ word_at mbox i)
  changed_word mbox x ne =
      let inside : 28 < length mbox = elim (Bool-cases (ltb 28 (length mbox))) [
        | inl lt ↦ ltb→lt 28 (length mbox) lt
        | inr ge ↦ absurd (ne (get_or-ge mbox 28 0 (ground (arith, ge))))
      ] in
      (get_or-set_self mbox 28 x 0 inside, λ i other. get_or-set_ne mbox 28 i x 0 other)

  take_screen-cases :
      (screen : Screen) (s : S)
      → (IsGranted (v.mbox s)
          × ((take_screen screen (word_at (v.mbox s) 1 == mbox_response) s).0 ≡ granted (v.mbox s)))
        ⊎ ((¬ IsGranted (v.mbox s))
            × (take_screen screen (word_at (v.mbox s) 1 == mbox_response) s ≡ (screen, s)))
  unfolding take_screen
  take_screen-cases screen s =
      let mbox = v.mbox s in
      elim (Bool-cases (word_at mbox 1 == mbox_response)) [
        | inr e ↦ inr (λ (a, _, _). ground (arith, e, a), rw e refl)
        | inl response ↦ elim (Bool-cases (word_at mbox 20 == 32)) [
          | inr e ↦ inr (λ (_, b, _). ground (arith, e, b), rw (response, e) refl)
          | inl depth ↦ elim (Bool-cases (word_at mbox 28 == 0)) [
            | inl e ↦
                inr
                  (λ (_, _, c). c ((==_iff (word_at mbox 28) 0).0 e), rw (response, depth, e) refl)
            | inr e ↦
                let ne : word_at mbox 28 ≢ 0 = ground (arith, e) in
                let adr = bit_and (word_at mbox 28) 0x3FFF_FFFF in
                let (new, old) = changed_word mbox adr ne in
                inl (
                  (
                    (==_iff (word_at mbox 1) mbox_response).0 response,
                    (==_iff (word_at mbox 20) 32).0 depth,
                    ne,
                  ),
                  rw
                      (
                        response,
                        depth,
                        e,
                        new,
                        old 10 (omega arith),
                        old 11 (omega arith),
                        old 33 (omega arith),
                        old 24 (omega arith),
                      )
                      refl,
                )
          ]
        ]
      ]

-- When the graphics processor takes the message and replies to it: `framebuffer_init` returns, however
-- many replies to other messages come before. If the reply is a success with 32 bits per pixel and an
-- address, the screen is the reply's, at the kernel address of its lower 30 bits; otherwise the
-- variables of the frame buffer are as before.
pub framebuffer_init-IsGranted :
    (S : Type 0) (v : VideoCore S) (rounds fuel mbox_adr : ℕ) (screen : Screen) (s s' : S)
    → Exchange v rounds fuel (request_word mbox_adr mbox_ch_prop) (with_message v s) s'
    → (screen' : Screen) × (s'' : S) × (framebuffer_init v rounds fuel mbox_adr screen s
        ≡ some (screen', s''))
      × ((IsGranted v (v.mbox s') × (screen' ≡ granted v (v.mbox s')))
          ⊎ ((¬ IsGranted v (v.mbox s')) × (screen' ≡ screen)))
unfolding framebuffer_init
framebuffer_init-IsGranted S v rounds fuel mbox_adr screen s s' x =
    let r = take_screen v screen (word_at (v.mbox s') 1 == mbox_response) s' in
    (
      r.0,
      r.1,
      rw (mailbox_call-Exchange v rounds fuel mbox_adr mbox_ch_prop (with_message v s) s' x) refl,
      elim (take_screen-cases v screen s') [
        | inl (is_granted, e) ↦ inl (is_granted, e)
        | inr (refused, e) ↦ inr (refused, ap (λ (r : Screen × S). r.0) e)
      ],
    )
