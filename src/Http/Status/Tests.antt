-- ===== src/Http/Status/Tests.antt =====
-- The names of status codes at concrete codes.
use networkio.Text.{eq_text}
use networkio.Base.{◌≡◌, refl, ◌⊎◌, true, false}
use networkio.Base.Int.{pos, negsuc}
use networkio.Http.Status.{
  eq_text, extension_from, extension, name_of, status_code_to_str, status_str_to_code, unknown,
  resolve_content_type, png, image_png,
}
use networkio.Http.Status.Laws.{status_str_to_code-status_code_to_str, is_among, named_codes}

-- 301 is not in the table.
moved_permanently : status_code_to_str (pos 301) ≡ unknown
unfolding status_code_to_str name_of
moved_permanently = refl

-- A file that is called "png" counts as an image.
bare_name : resolve_content_type png ≡ image_png
unfolding resolve_content_type extension extension_from eq_text
bare_name = refl

status_str_to_code-status_code_to_str_example :
    ((is_among named_codes (pos 404) ≡ true)
      × (eq_text (status_code_to_str (pos 404)) unknown ≡ false)
      × (status_str_to_code (status_code_to_str (pos 404)) ≡ pos 404))
    ⊎ ((is_among named_codes (pos 404) ≡ false)
        × (status_code_to_str (pos 404) ≡ unknown)
        × (status_str_to_code (status_code_to_str (pos 404)) ≡ negsuc 0))
status_str_to_code-status_code_to_str_example = status_str_to_code-status_code_to_str (pos 404)
