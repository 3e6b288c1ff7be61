-- ===== src/Service/Name/Paths.antt =====
-- Which names share a file.
use Prim.Native.String.{String, [], ◌∷◌, ◌++◌}
use Prim.Native.String.append
use entangle.Prelude.{◌≡◌, sym, ap, ◌∙◌}
use entangle.Service.Name.{safe_name, service_path, replace_char}

safe_name-append :
    (before after : String) → safe_name (before ++ after) ≡ safe_name before ++ safe_name after
unfolding safe_name
safe_name-append [] after = ap safe_name (append.nil after) ∙ sym (append.nil (safe_name after))
safe_name-append (c ∷ before) after =
    ap safe_name (append.cons c before after)
    ∙ ap (λ s. replace_char c ∷ s) (safe_name-append before after)
    ∙ sym (append.cons (replace_char c) (safe_name before) (safe_name after))

-- The two characters become the same one.
safe_name-slash : (after : String) → safe_name ("/" ++ after) ≡ safe_name ("_" ++ after)
unfolding safe_name
safe_name-slash after = safe_name-append "/" after ∙ sym (safe_name-append "_" after)

-- Two service names that differ in a slash against an underscore at one place have the same path.
pub service_path-clash :
    (before after : String)
    → service_path (before ++ ("/" ++ after)) ≡ service_path (before ++ ("_" ++ after))
unfolding service_path
service_path-clash before after =
    ap (λ s. s ++ ".ron")
      (safe_name-append before ("/" ++ after)
        ∙ ap (λ s. safe_name before ++ s) (safe_name-slash after)
        ∙ sym (safe_name-append before ("_" ++ after)))
