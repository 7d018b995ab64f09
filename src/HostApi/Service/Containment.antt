-- ===== src/HostApi/Service/Containment.antt =====
-- Which files `ImagePolicy::resolve` lets through.
use kernmux.Prelude.{
  ◌≡◌, ◌↔◌, refl, sym, ap, ◌∙◌, Bool, true, false, not, some, List, any, any_iff, Any, Result, ok,
  ◌>>=◌, ◌>>◌, >>=-eq-ok, reject_if, reject_if-eq-ok, ok_or, ok_or-eq-ok, ok_injective,
}
use kernmux.Prelude.Text.{Text, text}
use kernmux.Api.{ApiError}
use kernmux.HostApi.{invalid}
use kernmux.HostApi.Service.Files.{is_absolute, outside, resolve_image, starts_with}
use kernmux.HostApi.Service.Types.{FileSystem}

module _ {W : Type 0} (files : FileSystem W) (roots : List Text) (path : Text) (w : W) where
  -- The path is absolute, and leads to a regular file below one of the roots.
  abbrev pub IsContained : Text → Type 0
  IsContained file =
      (is_absolute path ≡ true)
      × (files.canonicalize path w ≡ some file)
      × Any (λ root. starts_with file root ≡ true) roots
      × (files.is_file file w ≡ some true)

  unavailable : ApiError
  unavailable = invalid (text "image file is unavailable")

  checked_file : Text → Bool → Result Text ApiError
  checked_file file regular =
      reject_if (not regular) (invalid (text "image path is not a regular file")) >> ok file

  below_root : Text → Result Text ApiError
  below_root file =
      reject_if (not (any (starts_with file) roots)) outside
      >> (ok_or (files.is_file file w) unavailable >>= checked_file file)

  double_not : (b : Bool) → not b ≡ false → b ≡ true
  double_not true h = refl
  double_not false h = cc

  -- An image path is accepted, as a file, exactly if it is absolute, that file is what it leads to
  -- after all symbolic links, the file lies below a configured root by whole path components, and
  -- it is a regular file.
  pub resolve_image_iff :
      (file : Text) → (resolve_image files roots path w ≡ ok file) ↔ IsContained file
  unfolding resolve_image unavailable below_root checked_file
  resolve_image_iff file = (forward, backward)
    where
      forward : resolve_image files roots path w ≡ ok file → IsContained file
      forward h =
          let (_, absolute, h1) =
            >>=-eq-ok
              (reject_if (not (is_absolute path)) (invalid (text "image path must be absolute")))
              (λ _. ok_or (files.canonicalize path w) unavailable >>= below_root) h in
          let (found, real, h2) =
            >>=-eq-ok (ok_or (files.canonicalize path w) unavailable) below_root h1 in
          let (_, below, h3) =
            >>=-eq-ok (reject_if (not (any (starts_with found) roots)) outside)
              (λ _. ok_or (files.is_file found w) unavailable >>= checked_file found) h2 in
          let (regular, known, h4) =
            >>=-eq-ok (ok_or (files.is_file found w) unavailable) (checked_file found) h3 in
          let (_, is_regular, h5) =
            >>=-eq-ok (reject_if (not regular) (invalid (text "image path is not a regular file")))
              (λ _. ok found) h4 in
          let e : found ≡ file = ok_injective h5 in
          let yes_regular : regular ≡ true = double_not regular (reject_if-eq-ok _ _ is_regular) in
          (
            double_not (is_absolute path) (reject_if-eq-ok _ _ absolute),
            ok_or-eq-ok _ _ real ∙ ap some e,
            (any_iff (starts_with file) roots).0 (
                ap (λ f. any (starts_with f) roots) (sym e)
                ∙ double_not (any (starts_with found) roots) (reject_if-eq-ok _ _ below)),
            ap (λ f. files.is_file f w) (sym e) ∙ ok_or-eq-ok _ _ known ∙ ap some yes_regular,
          )

      backward : IsContained file → resolve_image files roots path w ≡ ok file
      backward (absolute, real, below, regular) =
          let under = (any_iff (starts_with file) roots).1 below in
          rw (absolute, real, under, regular) refl
