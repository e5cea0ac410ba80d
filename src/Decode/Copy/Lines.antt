-- ===== src/Decode/Copy/Lines.antt =====
-- src/wii/decode.c, the copying of the lines of one plane: it lays them out one behind the other.
use moonlight_wii.Prelude.{
  ℕ, zero, suc, ◌+◌, ◌-◌, ◌*◌, ◌≤◌, ◌≡◌, refl, ap, ap₂, append-nil, sym, ◌∙◌, [], ◌++◌, arith,
  append_assoc, length, take, drop, replicate, length-append, length-take, length-drop,
  length-replicate,
}
use moonlight_wii.Prelude.Text.{Bytes}
use moonlight_wii.Prelude.Memory.{write, memcpy, memset, write-append, length-write, drop-drop}
use moonlight_wii.Decode.{Frame, Picture, copy_line, copy_lines, copy_chroma}

module _ (pad stride linesize w : ℕ) (src : Bytes) where
  -- The i-th line of a plane as the GPU wants it: its pixels, and padding up to the stride.
  abbrev pub line : ℕ → Bytes
  line i = take w (drop (i * linesize) src) ++ replicate (stride - w) pad

  -- `n` lines from the i-th on.
  abbrev pub lines : ℕ → ℕ → Bytes
  lines zero i = []
  lines (suc n) i = line i ++ lines n (i + 1)

  length-take_line :
      (i : ℕ) → i * linesize + w ≤ length src → length (take w (drop (i * linesize) src)) ≡ w
  length-take_line i h =
      omega (arith, length-take w (drop (i * linesize) src), length-drop (i * linesize) src)

  pub length-line : (i : ℕ) → w ≤ stride → i * linesize + w ≤ length src → length (line i) ≡ stride
  length-line i hw h = omega (
    arith,
    length-append (take w (drop (i * linesize) src)) (replicate (stride - w) pad),
    length-take_line i h,
    length-replicate (stride - w) pad,
  )

  -- One round, with the lines before it done.
  copy_line_lem :
      (i : ℕ) (done rest : Bytes)
      → length done ≡ i * stride
      → w ≤ stride
      → stride ≤ length rest
      → i * linesize + w ≤ length src
      → copy_line pad stride linesize w src i (done ++ rest) ≡ (done ++ line i) ++ drop stride rest
  unfolding copy_line memcpy memset
  copy_line_lem i done rest hd hw hr hs =
      let pixels = take w (drop (i * linesize) src) in
      let padding = replicate (stride - w) pad in
      let size : length pixels ≡ w = length-take_line i hs in
      let left : length padding ≡ stride - w = length-replicate (stride - w) pad in
      let first : write (done ++ rest) (i * stride) pixels ≡ (done ++ pixels) ++ drop w rest =
        write-append done rest pixels (i * stride) (sym hd) (omega arith)
        ∙ ap (λ k. (done ++ pixels) ++ drop k rest) size in
      let second : write ((done ++ pixels) ++ drop w rest) (i * stride + w) padding
          ≡ ((done ++ pixels) ++ padding) ++ drop (length padding) (drop w rest) =
        write-append (done ++ pixels) (drop w rest) padding (i * stride + w)
          (omega (arith, length-append done pixels)) (omega (arith, length-drop w rest)) in
      rw first (
        second
        ∙ ap₂ ◌++◌ (append_assoc done pixels padding)
            (drop-drop w (length padding) rest ∙ ap (λ k. drop k rest) (omega arith)))

  -- The loop lays out the reference's lines, and leaves what lies behind them.
  copy_lines_from :
      (n i : ℕ) (done rest : Bytes)
      → length done ≡ i * stride
      → w ≤ stride
      → n * stride ≤ length rest
      → (i + n) * linesize + w ≤ length src + linesize
      → copy_lines pad stride linesize w src n i (done ++ rest)
        ≡ (done ++ lines n i) ++ drop (n * stride) rest
  unfolding copy_lines
  copy_lines_from zero i done rest hd hw hr hs =
      let none_left : 0 * stride ≡ 0 = omega arith in
      rw none_left (ap (λ l. l ++ rest) (sym (append-nil done)))
  copy_lines_from (suc n) i done rest hd hw hr hs =
      let size : length (line i) ≡ stride = length-line i hw (omega arith) in
      rw (copy_line_lem i done rest hd hw (omega arith) (omega arith)) (
        copy_lines_from n (i + 1) (done ++ line i) (drop stride rest)
          (omega (arith, length-append done (line i))) hw (omega (arith, length-drop stride rest))
          (omega arith)
        ∙ ap₂ ◌++◌ (append_assoc done (line i) (lines n (i + 1)))
            (drop-drop stride (n * stride) rest ∙ ap (λ k. drop k rest) (omega arith)))

  -- The copying loop is the layout of the reference: the first `n` lines of the picture, each padded to the
  -- stride, and behind them the plane as it was.
  pub copy_lines_lem :
      (n : ℕ) (plane : Bytes)
      → w ≤ stride
      → n * stride ≤ length plane
      → n * linesize + w ≤ length src + linesize
      → copy_lines pad stride linesize w src n 0 plane ≡ lines n 0 ++ drop (n * stride) plane
  copy_lines_lem n plane hw hp hs = copy_lines_from n 0 [] plane (omega arith) hw hp (omega arith)

pub copy_chroma_lem :
    (p : Picture) (hw n i : ℕ) (fb : Frame)
    → copy_chroma p hw n i fb ≡ record fb {
      u = copy_lines 128 fb.uvstride p.linesize1 hw p.plane1 n i fb.u;
      v = copy_lines 128 fb.uvstride p.linesize2 hw p.plane2 n i fb.v;
    }
unfolding copy_chroma copy_lines
copy_chroma_lem p hw zero i fb = refl
copy_chroma_lem p hw (suc n) i fb = copy_chroma_lem p hw n (i + 1) (record fb {
  u = copy_line 128 fb.uvstride p.linesize1 hw p.plane1 i fb.u;
  v = copy_line 128 fb.uvstride p.linesize2 hw p.plane2 i fb.v;
})

pub length-copy_line :
    (pad stride linesize w : ℕ) (src : Bytes) (i : ℕ) (plane : Bytes)
    → length (copy_line pad stride linesize w src i plane) ≡ length plane
unfolding copy_line memcpy memset
length-copy_line pad stride linesize w src i plane =
    length-write _ (i * stride + w) (replicate (stride - w) pad)
    ∙ length-write plane (i * stride) (take w (drop (i * linesize) src))

pub length-copy_lines :
    (pad stride linesize w : ℕ) (src : Bytes) (n i : ℕ) (plane : Bytes)
    → length (copy_lines pad stride linesize w src n i plane) ≡ length plane
unfolding copy_lines
length-copy_lines pad stride linesize w src zero i plane = refl
length-copy_lines pad stride linesize w src (suc n) i plane =
    length-copy_lines pad stride linesize w src n (i + 1)
      (copy_line pad stride linesize w src i plane)
    ∙ length-copy_line pad stride linesize w src i plane
