-- ===== src/Hub/Dispatcher/Capture.antt =====
-- Proofs on the pictures that hub/dispatcher.py makes.
use tsanet.Prelude.{
  ℕ, ◌≡◌, refl, ap, ◌^◌, ◌*◌, String, Bool, true, false, List, ltb, ◌==◌, length, if◌then◌else◌,
}
use tsanet.Errors.{Kind, Result, ok, err, raise_error, lift}
use tsanet.Errors.Chain
use tsanet.Protocol.Value.{end}
use tsanet.Device.Model.{framebuffer}
use tsanet.Device.Commands.Basic.{fetch_framebuffer}
use tsanet.Device.Rgb565.Laws.{decode_pixels-colours}
use tsanet.Device.Rgb565.{decode_rgb565}
use tsanet.Device.Png.{Zlib, pack_u32, chunk, encode_png}
use tsanet.Hub.Registry.{RegisteredDevice}
use tsanet.Hub.State.{Library}
use tsanet.Hub.Dispatcher.{route, handle_capture, capture_png}
use tsanet.Hub.Dispatcher.Ready.{
  IsUnderstood, Plain, refuses, Plain-send_binary, Plain-lift, Plain-bind, refuses-on_device,
}

-- A value, or `ValueError`.
refuses-if :
    {A : Type 0} (b : Bool) (r : Result A) (why : String)
    → refuses r ≡ false
    → refuses (if b then r else raise_error Kind.value_error why) ≡ false
refuses-if true r why h = h
refuses-if false r why h = refl

refuses-chain :
    {A B : Type 0} (r : Result A) (k : A → Result B)
    → refuses r ≡ false
    → ((a : A) → refuses (k a) ≡ false)
    → refuses (Chain.◌>>=◌ r k) ≡ false
refuses-chain (ok a) k hr hk = hk a
refuses-chain (err e) k hr hk = hr

refuses-decode_rgb565 :
    (raw : List ℕ) (width height : ℕ) → refuses (decode_rgb565 raw width height) ≡ false
unfolding decode_rgb565
refuses-decode_rgb565 raw width height =
    refuses-if (length raw == width * height * 2) _ _
      (ap refuses (decode_pixels-colours (width * height) raw))

refuses-pack_u32 : (n : ℕ) → refuses (pack_u32 n) ≡ false
unfolding pack_u32
refuses-pack_u32 n = refuses-if (ltb n (2 ^ 32)) _ _ refl

module _ (zlib : Zlib) where
  refuses-chunk : (tag content : List ℕ) → refuses (chunk zlib tag content) ≡ false
  unfolding chunk
  refuses-chunk tag content =
      refuses-chain (pack_u32 _) _ (refuses-pack_u32 _)
        (λ size. refuses-chain (pack_u32 _) _ (refuses-pack_u32 _) (λ check. refl))

  refuses-encode_png :
      (rgba : List ℕ) (width height : ℕ) → refuses (encode_png zlib rgba width height) ≡ false
  unfolding encode_png
  refuses-encode_png rgba width height = refuses-if (length rgba == width * height * 4) _ _ (
      refuses-chain (pack_u32 width) _ (refuses-pack_u32 width) (λ w.
        refuses-chain (pack_u32 height) _ (refuses-pack_u32 height) (λ h.
          refuses-chain (chunk zlib _ _) _ (refuses-chunk _ _) (λ head.
            refuses-chain (chunk zlib _ _) _ (refuses-chunk _ _)
              (λ body. refuses-chain (chunk zlib _ _) _ (refuses-chunk _ _) (λ end. refl))))))

module _ (library : Library) where
  Plain-capture_png : (d : RegisteredDevice) → Plain (capture_png library d)
  unfolding capture_png fetch_framebuffer
  Plain-capture_png d =
      let size = framebuffer d.info.model in
      Plain-bind (fetch_framebuffer d.info.model) _ (Plain-send_binary "capture" _) (λ raw.
        Plain-bind (lift (decode_rgb565 raw size.0 size.1)) _
          (Plain-lift (decode_rgb565 raw size.0 size.1) (refuses-decode_rgb565 raw size.0 size.1))
          (λ rgba.
            Plain-bind (lift (encode_png library.zlib rgba size.0 size.1)) _
              (Plain-lift _ (refuses-encode_png library.zlib rgba size.0 size.1))
              (λ png tx p. (refl, p))))

  pub capture-fetch : IsUnderstood library "capture" "fetch" end
  unfolding route handle_capture
  capture-fetch = record {
    at = λ id h ready.
        rw (ready.selected, route)
          (rw ready.known (
            refuses-on_device ready.id ready.device (capture_png library ready.device) h ready.known
              ready.plain (Plain-capture_png ready.device)));
  }
