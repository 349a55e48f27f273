-- ===== src/Std/Paths.antt =====
-- path.Clean.
use wireproxy_homerun.Prelude.{◌==◌, if◌then◌else◌, Bool, true, false, List, [], ◌∷◌, ◌++◌}
use wireproxy_homerun.Std.{Text, codes, text_eq, split_byte}
use mathlib.Core.List.{reverse}

-- The stack of the segments so far, the last on top; above the root ".." goes nowhere, and in a
-- relative path it stays.
go_up : Bool → List Text → List Text
go_up true [] = []
go_up false [] = codes ".." ∷ []
go_up rooted (s ∷ done) = if text_eq s (codes "..") then codes ".." ∷ s ∷ done else done

push_segment : Bool → List Text → Text → List Text
unfolding go_up
push_segment rooted done [] = done
push_segment rooted done (c ∷ s) =
    if text_eq (c ∷ s) (codes ".")
    then done
    else (if text_eq (c ∷ s) (codes "..") then go_up rooted done else (c ∷ s) ∷ done)

segments : Bool → List Text → List Text → List Text
unfolding push_segment
segments rooted done [] = done
segments rooted done (s ∷ rest) = segments rooted (push_segment rooted done s) rest

joined : List Text → Text
joined [] = []
joined (s ∷ []) = s
joined (s ∷ t ∷ rest) = s ++ b'/' ∷ joined (t ∷ rest)

or_dot : Text → Text
or_dot [] = codes "."
or_dot (c ∷ s) = c ∷ s

unfoldable pub clean : Text → Text
unfolding segments joined or_dot
clean [] = codes "."
clean (c ∷ path) =
    let parts = reverse (segments (c == b'/') [] (split_byte b'/' (c ∷ path))) in
    if c == b'/' then b'/' ∷ joined parts else or_dot (joined parts)
