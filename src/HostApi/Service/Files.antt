-- ===== src/HostApi/Service/Files.antt =====
-- `ImagePolicy`: the roots below which images may lie.
use kernmux.Prelude.{
  Bool, true, false, not, ◌&&◌, List, [], ◌∷◌, ◌++◌, any, filter, ◌==◌, if◌then◌else◌, Result, ok,
  err, ◌>>=◌, ◌>>◌, reject_if, ok_or,
}
use kernmux.Prelude.Order.{bytes_ord, same}
use kernmux.Prelude.TreeSet.{contains}
use kernmux.Prelude.Text.{Text, text}
use kernmux.Prelude.Parsing.{split_on}
use kernmux.Api.{ApiError, ErrorCode}
use kernmux.HostApi.Errors.{error, invalid}
use kernmux.HostApi.Service.Types.{FileSystem}

unfoldable pub is_absolute : Text → Bool
is_absolute [] = false
is_absolute (c ∷ cs) = c == b'/'

-- `Path::components`: the root, if the path is absolute, and the names.
unfoldable pub components : Text → List Text
unfolding split_on text is_absolute
components path =
    let names =
      filter (λ part. not (same part []) && not (same part (text "."))) (split_on b'/' path) in
    if is_absolute path then text "/" ∷ names else names

abbrev is_prefix : List Text → List Text → Bool
is_prefix [] ys = true
is_prefix (x ∷ xs) [] = false
is_prefix (x ∷ xs) (y ∷ ys) = same x y && is_prefix xs ys

-- `Path::starts_with`, by whole components.
unfoldable pub starts_with : Text → Text → Bool
unfolding components
starts_with path root = is_prefix (components root) (components path)

abbrev pub outside : ApiError
outside = error ErrorCode.forbidden (text "image path is outside configured roots") false

module _ {W : Type 0} (files : FileSystem W) where
  -- The loop of `ImagePolicy::new`.
  unfoldable pub canonical_roots : List Text → List Text → W → Result (List Text) ApiError
  unfolding invalid contains
  canonical_roots [] canonical w = ok canonical
  canonical_roots (root ∷ roots) canonical w =
      ok_or (files.canonicalize root w) (invalid (text "image root is unavailable")) >>= λ found.
      reject_if (not (files.is_dir found w)) (invalid (text "image root is not a directory"))
      >> canonical_roots roots
          (if contains canonical found then canonical else canonical ++ found ∷ []) w

  abbrev nonempty : List Text → Result (List Text) ApiError
  nonempty [] = err (invalid (text "at least one image root is required"))
  nonempty (root ∷ roots) = ok (root ∷ roots)

  -- `ImagePolicy::new`.
  unfoldable pub new_policy : List Text → W → Result (List Text) ApiError
  unfolding canonical_roots
  new_policy roots w = canonical_roots roots [] w >>= nonempty

  -- `ImagePolicy::resolve`.
  unfoldable pub resolve_image : List Text → Text → W → Result Text ApiError
  unfolding invalid is_absolute starts_with
  resolve_image roots path w =
      reject_if (not (is_absolute path)) (invalid (text "image path must be absolute"))
      >> (ok_or (files.canonicalize path w) (invalid (text "image file is unavailable"))
          >>= λ canonical.
              reject_if (not (any (starts_with canonical) roots)) outside
              >> (ok_or (files.is_file canonical w) (invalid (text "image file is unavailable"))
                  >>= λ regular.
                      reject_if (not regular) (invalid (text "image path is not a regular file"))
                      >> ok canonical))
