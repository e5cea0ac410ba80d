-- ===== src/Decode/Copy.antt =====
-- Copying a picture into a frame buffer, line by line, is laying out its lines one behind the other. The
-- child Lines is about a single plane.
use moonlight_wii.Prelude.{
  ℕ, zero, suc, ◌+◌, ◌-◌, ◌*◌, ◌/◌, ◌≤◌, ◌≡◌, refl, ap, ap₂, append-nil, sym, ◌∙◌, [], ◌++◌, arith,
  append_assoc, length, take, drop, min, replicate, length-append, length-take, length-drop,
  length-replicate,
}
use moonlight_wii.Prelude.Text.{Bytes}
use moonlight_wii.Prelude.Memory.{
  write, memcpy, memset, write-append, length-write, drop-drop, drop_all,
}
use moonlight_wii.Decode.{
  Frame, Picture, round_up8, copy_line, copy_lines, copy_chroma, copy_picture,
}
pub mod Lines
unfoldable pub use Lines.*

-- A picture whose planes have their lines, the planes of the colours half as many and half as long.
pub record IsWhole (p : Picture) : Type 0 where
  pub wide0 : p.width ≤ p.linesize0
  pub wide1 : p.width / 2 ≤ p.linesize1
  pub wide2 : p.width / 2 ≤ p.linesize2
  pub lines0 : p.height * p.linesize0 ≤ length p.plane0
  pub lines1 : p.height / 2 * p.linesize1 ≤ length p.plane1
  pub lines2 : p.height / 2 * p.linesize2 ≤ length p.plane2

-- A frame buffer for a stream of the given size.
pub record IsAllocated (width height : ℕ) (fb : Frame) : Type 0 where
  pub width_is : fb.width ≡ width
  pub height_is : fb.height ≡ height
  pub ystride_is : fb.ystride ≡ round_up8 width
  pub uvstride_is : fb.uvstride ≡ round_up8 (width / 2)
  pub y_size : length fb.y ≡ round_up8 width * height
  pub u_size : length fb.u ≡ round_up8 (width / 2) * (height / 2)
  pub v_size : length fb.v ≡ round_up8 (width / 2) * (height / 2)

pub le-round_up8 : (n : ℕ) → n ≤ round_up8 n
unfolding round_up8
le-round_up8 n = omega arith

-- Fewer lines fit, too.
fewer : (m n s k : ℕ) → m ≤ n → n * s ≤ k → m * s ≤ k
fewer m n s k h e = grind arith

-- A plane of `rows` lines, and a picture that has `n` lines of at least `w` pixels.
plane_lem :
    (pad stride linesize w n rows height : ℕ) (src plane : Bytes)
    → w ≤ stride
    → w ≤ linesize
    → n ≤ rows
    → n ≤ height
    → height * linesize ≤ length src
    → length plane ≡ stride * rows
    → copy_lines pad stride linesize w src n 0 plane
      ≡ lines pad stride linesize w src n 0 ++ drop (n * stride) plane
plane_lem pad stride linesize w n rows height src plane hs hl hr hh hsrc hp =
    copy_lines_lem pad stride linesize w src n plane hs
      (fewer n rows stride (length plane) hr (omega arith))
      (omega (arith, fewer n height linesize (length src) hh hsrc))

-- What a frame buffer is to hold: the lines of the picture, as far as they fit, padded to the strides, and
-- what it held below them.
abbrev pub laid_out : Picture → Frame → Frame
laid_out p fb =
    let w = min p.width fb.width in
    let h = min p.height fb.height in
    let us = fb.uvstride in
    record fb {
      y = lines 0 fb.ystride p.linesize0 w p.plane0 h 0 ++ drop (h * fb.ystride) fb.y;
      u = lines 128 us p.linesize1 (w / 2) p.plane1 (h / 2) 0 ++ drop (h / 2 * us) fb.u;
      v = lines 128 us p.linesize2 (w / 2) p.plane2 (h / 2) 0 ++ drop (h / 2 * us) fb.v;
    }

abbrev with_planes_of : Frame → Bytes → Bytes → Bytes → Frame
with_planes_of fb y u v = record fb { y = y; u = u; v = v }

same_planes :
    (fb : Frame) (y y' u u' v v' : Bytes)
    → y ≡ y'
    → u ≡ u'
    → v ≡ v'
    → with_planes_of fb y u v ≡ with_planes_of fb y' u' v'
same_planes fb y y' u u' v v' a b c = cc

module _ (width height : ℕ) (p : Picture) (fb : Frame) where
  -- Decoding a picture whose planes hold all of their lines into a frame buffer of the stream's size lays
  -- it out: its first lines and columns, as far as they fit, each line padded up to the stride, with black
  -- in Y and with 0x80 in U and V; what lies below the last line stays.
  pub copy_picture-laid_out :
      IsAllocated width height fb → IsWhole p → copy_picture p fb ≡ laid_out p fb
  unfolding copy_picture
  copy_picture-laid_out a c =
      let w = min p.width fb.width in
      let h = min p.height fb.height in
      copy_chroma_lem p (w / 2) (h / 2) 0
        (record fb { y = copy_lines 0 fb.ystride p.linesize0 w p.plane0 h 0 fb.y })
      ∙ same_planes fb _ _ _ _ _ _
          (plane_lem 0 fb.ystride p.linesize0 w h height p.height p.plane0 fb.y
            (omega (arith, le-round_up8 width)) (omega arith) (omega arith) (omega arith) c.lines0
            (rw a.ystride_is a.y_size))
          (plane_lem 128 fb.uvstride p.linesize1 (w / 2) (h / 2) (height / 2) (p.height / 2)
            p.plane1 fb.u (omega (arith, le-round_up8 (width / 2))) (omega arith) (omega arith)
            (omega arith) c.lines1 (rw a.uvstride_is a.u_size))
          (plane_lem 128 fb.uvstride p.linesize2 (w / 2) (h / 2) (height / 2) (p.height / 2)
            p.plane2 fb.v (omega (arith, le-round_up8 (width / 2))) (omega arith) (omega arith)
            (omega arith) c.lines2 (rw a.uvstride_is a.v_size))

-- A frame buffer keeps its size, whatever is decoded into it.
pub copy_picture-IsAllocated :
    (width height : ℕ) (p : Picture) (fb : Frame)
    → IsAllocated width height fb
    → IsAllocated width height (copy_picture p fb)
unfolding copy_picture
copy_picture-IsAllocated width height p fb a =
    let w = min p.width fb.width in
    let h = min p.height fb.height in
    rw
      (copy_chroma_lem p (w / 2) (h / 2) 0
        (record fb { y = copy_lines 0 fb.ystride p.linesize0 w p.plane0 h 0 fb.y }))
      (record {
        width_is = a.width_is;
        height_is = a.height_is;
        ystride_is = a.ystride_is;
        uvstride_is = a.uvstride_is;
        y_size = length-copy_lines 0 fb.ystride p.linesize0 w p.plane0 h 0 fb.y ∙ a.y_size;
        u_size =
            length-copy_lines 128 fb.uvstride p.linesize1 (w / 2) p.plane1 (h / 2) 0 fb.u
            ∙ a.u_size;
        v_size =
            length-copy_lines 128 fb.uvstride p.linesize2 (w / 2) p.plane2 (h / 2) 0 fb.v
            ∙ a.v_size;
      })

-- The picture of a whole frame buffer.
abbrev pub image : ℕ → ℕ → Picture → Frame
image width height p =
    let ys = round_up8 width in
    let us = round_up8 (width / 2) in
    record {
      y = lines 0 ys p.linesize0 width p.plane0 height 0;
      u = lines 128 us p.linesize1 (width / 2) p.plane1 (height / 2) 0;
      v = lines 128 us p.linesize2 (width / 2) p.plane2 (height / 2) 0;
      width = width;
      height = height;
      ystride = ys;
      uvstride = us;
    }

whole_plane :
    (pad stride stride' linesize w w' n n' : ℕ) (src plane : Bytes)
    → stride ≡ stride'
    → w ≡ w'
    → n ≡ n'
    → length plane ≡ stride' * n'
    → lines pad stride linesize w src n 0 ++ drop (n * stride) plane
      ≡ lines pad stride' linesize w' src n' 0
whole_plane pad stride stride' linesize w w' n n' src plane hs hw hn hp =
    rw hs (rw hw (rw hn (rw (drop_all plane (n' * stride') (omega arith)) (append-nil _))))

same_frame :
    (y y' u u' v v' : Bytes) (w w' h h' ys ys' us us' : ℕ)
    → y ≡ y'
    → u ≡ u'
    → v ≡ v'
    → w ≡ w'
    → h ≡ h'
    → ys ≡ ys'
    → us ≡ us'
    → ◌≡◌ {A = Frame}
        (record { y = y; u = u; v = v; width = w; height = h; ystride = ys; uvstride = us })
        (record { y = y'; u = u'; v = v'; width = w'; height = h'; ystride = ys'; uvstride = us' })
same_frame y y' u u' v v' w w' h h' ys ys' us us' a b c d e f g = cc

-- A picture that is at least as large as the stream leaves nothing of what the buffer held.
pub copy_picture-image :
    (width height : ℕ) (p : Picture) (fb : Frame)
    → IsAllocated width height fb
    → IsWhole p
    → width ≤ p.width
    → height ≤ p.height
    → copy_picture p fb ≡ image width height p
copy_picture-image width height p fb a c hw hh =
    let w : min p.width fb.width ≡ width = omega arith in
    let h : min p.height fb.height ≡ height = omega arith in
    copy_picture-laid_out width height p fb a c
    ∙ same_frame _ _ _ _ _ _ _ _ _ _ _ _ _ _
        (whole_plane 0 _ _ p.linesize0 _ _ _ _ p.plane0 fb.y a.ystride_is w h a.y_size)
        (whole_plane 128 _ _ p.linesize1 _ _ _ _ p.plane1 fb.u a.uvstride_is (ap (λ k. k / 2) w)
          (ap (λ k. k / 2) h) a.u_size)
        (whole_plane 128 _ _ p.linesize2 _ _ _ _ p.plane2 fb.v a.uvstride_is (ap (λ k. k / 2) w)
          (ap (λ k. k / 2) h) a.v_size)
        a.width_is a.height_is a.ystride_is a.uvstride_is
