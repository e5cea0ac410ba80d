-- ===== src/Decode/Order.antt =====
-- With at most one frame waiting before each decode, the two frame buffers are enough for those that wait.
use moonlight_wii.Prelude.{
  ℕ, zero, suc, ◌-◌, ◌≤◌, ◌<◌, ◌≡◌, ◌⊎◌, inl, inr, ap, ap₂, ◌∙◌, Option, none, some, List, [], ◌∷◌,
  ◌++◌, map, arith, length, set, get_or, length-set, length-map,
}
use moonlight_wii.Circular.{get_or-set_self, get_or-set_ne}
use moonlight_wii.FrameQueue.Inv
use moonlight_wii.FrameQueue.Inv.{add_frame-IsValid, get_frame-IsValid}
use moonlight_wii.FrameQueue.Refine.{contents, fifo_add, fifo_get, add_frame_refines}
use moonlight_wii.Decode.{
  Frame, Picture, Video, blank, decoder_buffer_size, copy_picture, next_texture, show_picture,
  drawn,
}
use moonlight_wii.Decode.Copy.{
  IsAllocated, IsWhole, image, copy_picture-image, copy_picture-IsAllocated,
}

-- The frames that wait, as their buffers are now, the oldest first.
abbrev pub waiting : Video → List Frame
waiting s = map (λ i. get_or s.frames i blank) (contents s.queue)

-- What waits is the last frame decoded, or the last two.
abbrev pub Pending : ℕ → List ℕ → Type 0
Pending t l = (l ≡ []) ⊎ ((l ≡ (1 - t) ∷ []) ⊎ (l ≡ t ∷ (1 - t) ∷ []))

pub record IsReady (width height : ℕ) (s : Video) : Type 0 where
  pub texture : s.current_texture < 2
  pub two : length s.frames ≡ 2
  pub first : IsAllocated width height (get_or s.frames 0 blank)
  pub second : IsAllocated width height (get_or s.frames 1 blank)
  pub queue : Inv.IsValid s.queue
  pub buffer : decoder_buffer_size ≤ length s.decodebuffer
  pub pending : Pending s.current_texture (contents s.queue)

pub IsAllocated-at :
    (width height : ℕ) (fbs : List Frame) (i : ℕ)
    → i < 2
    → IsAllocated width height (get_or fbs 0 blank)
    → IsAllocated width height (get_or fbs 1 blank)
    → IsAllocated width height (get_or fbs i blank)
IsAllocated-at width height fbs zero h a b = a
IsAllocated-at width height fbs (suc zero) h a b = b
IsAllocated-at width height fbs (suc (suc i)) h a b = absurd (omega arith)

-- One buffer written.
pub set-IsAllocated :
    (width height : ℕ) (fbs : List Frame) (t i : ℕ) (fb : Frame)
    → t < 2
    → i < 2
    → length fbs ≡ 2
    → IsAllocated width height fb
    → IsAllocated width height (get_or fbs i blank)
    → IsAllocated width height (get_or (set fbs t fb) i blank)
set-IsAllocated width height fbs zero zero fb ht hi hl a b =
    rw (get_or-set_self fbs 0 fb blank (omega arith)) a
set-IsAllocated width height fbs zero (suc i) fb ht hi hl a b =
    rw (get_or-set_ne fbs 0 (suc i) fb blank (omega arith)) b
set-IsAllocated width height fbs (suc zero) zero fb ht hi hl a b =
    rw (get_or-set_ne fbs 1 0 fb blank (omega arith)) b
set-IsAllocated width height fbs (suc zero) (suc zero) fb ht hi hl a b =
    rw (get_or-set_self fbs 1 fb blank (omega arith)) a
set-IsAllocated width height fbs (suc zero) (suc (suc i)) fb ht hi hl a b = absurd (omega arith)
set-IsAllocated width height fbs (suc (suc t)) i fb ht hi hl a b = absurd (omega arith)

pub Pending-added :
    (t : ℕ) (l : List ℕ)
    → t < 2
    → Pending t l
    → length l ≤ 1
    → Pending (next_texture t) (fifo_add t l)
unfolding next_texture
Pending-added t l ht (inl e) h = rw e (ground arith)
Pending-added t l ht (inr (inl e)) h = rw e (ground arith)
Pending-added t l ht (inr (inr e)) h = absurd (omega (arith, ap length e))

-- The frames that wait, when the texture that is decoded into has been added.
pub waiting_added :
    (fbs : List Frame) (t : ℕ) (fb : Frame) (l : List ℕ)
    → t < 2
    → length fbs ≡ 2
    → Pending t l
    → length l ≤ 1
    → map (λ i. get_or (set fbs t fb) i blank) (fifo_add t l)
      ≡ map (λ i. get_or fbs i blank) l ++ fb ∷ []
waiting_added fbs t fb l ht hl (inl e) h =
    rw e (ap (λ f. f ∷ []) (get_or-set_self fbs t fb blank (omega arith)))
waiting_added fbs t fb l ht hl (inr (inl e)) h = rw e (
    ap₂ (λ f g. f ∷ g ∷ []) (get_or-set_ne fbs t (1 - t) fb blank (omega arith))
      (get_or-set_self fbs t fb blank (omega arith)))
waiting_added fbs t fb l ht hl (inr (inr e)) h = absurd (omega (arith, ap length e))

-- The specification of drawing: the oldest frame that waits, and those behind it.
abbrev pub pop : List Frame → Option Frame × List Frame
pop [] = (none, [])
pop (f ∷ fs) = (some f, fs)

pub drawn_popped :
    (fbs : List Frame) (out : Option ℕ) (l l' : List ℕ)
    → (out, l') ≡ fifo_get l
    → (drawn out fbs, map (λ i. get_or fbs i blank) l') ≡ pop (map (λ i. get_or fbs i blank) l)
unfolding drawn
drawn_popped fbs out [] l' e = ap (λ r. (drawn r.0 fbs, map (λ i. get_or fbs i blank) r.1)) e
drawn_popped fbs out (i ∷ l) l' e = ap (λ r. (drawn r.0 fbs, map (λ i. get_or fbs i blank) r.1)) e

pub Pending-popped :
    (t : ℕ) (out : Option ℕ) (l l' : List ℕ) → (out, l') ≡ fifo_get l → Pending t l → Pending t l'
Pending-popped t out l l' e (inl p) = inl (ap (λ r. r.1) (e ∙ ap fifo_get p))
Pending-popped t out l l' e (inr (inl p)) = inl (ap (λ r. r.1) (e ∙ ap fifo_get p))
Pending-popped t out l l' e (inr (inr p)) = inr (inl (ap (λ r. r.1) (e ∙ ap fifo_get p)))

pub next_texture-lt : (t : ℕ) → next_texture t < 2
unfolding next_texture
next_texture-lt t = ground arith

pub length-waiting : (s : Video) → length (waiting s) ≡ length (contents s.queue)
length-waiting s = length-map (contents s.queue) (λ i. get_or s.frames i blank)

module _ (width height : ℕ) where
  -- A picture that is decoded while at most one frame waits: it waits behind that one.
  pub show_picture-IsReady :
      (p : Picture) (s : Video)
      → IsReady width height s
      → length (waiting s) ≤ 1
      → IsReady width height (show_picture p s)
  unfolding show_picture
  show_picture-IsReady p s r h =
      let t = s.current_texture in
      let old : IsAllocated width height (get_or s.frames t blank) =
        IsAllocated-at width height s.frames t r.texture r.first r.second in
      let new : IsAllocated width height (copy_picture p (get_or s.frames t blank)) =
        copy_picture-IsAllocated width height p (get_or s.frames t blank) old in
      record {
        texture = next_texture-lt t;
        two = length-set s.frames t (copy_picture p (get_or s.frames t blank)) ∙ r.two;
        first =
            set-IsAllocated width height s.frames t 0 _ r.texture (omega arith) r.two new r.first;
        second =
            set-IsAllocated width height s.frames t 1 _ r.texture (omega arith) r.two new r.second;
        queue = add_frame-IsValid t r.queue;
        buffer = r.buffer;
        pending = rw (add_frame_refines t s.queue r.queue) (
            Pending-added t (contents s.queue) r.texture r.pending
              (omega (arith, length-waiting s)));
      }

  pub show_picture-waiting :
      (p : Picture) (s : Video)
      → IsReady width height s
      → length (waiting s) ≤ 1
      → IsWhole p
      → width ≤ p.width
      → height ≤ p.height
      → waiting (show_picture p s) ≡ waiting s ++ image width height p ∷ []
  unfolding show_picture
  show_picture-waiting p s r h c hw hh =
      let t = s.current_texture in
      let fb = get_or s.frames t blank in
      ap (map (λ i. get_or (set s.frames t (copy_picture p fb)) i blank))
        (add_frame_refines t s.queue r.queue)
      ∙ waiting_added s.frames t (copy_picture p fb) (contents s.queue) r.texture r.two r.pending
          (omega (arith, length-waiting s))
      ∙ ap (λ f. waiting s ++ f ∷ [])
          (copy_picture-image width height p fb
            (IsAllocated-at width height s.frames t r.texture r.first r.second) c hw hh)
