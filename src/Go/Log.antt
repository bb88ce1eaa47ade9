-- ===== src/Go/Log.antt =====
-- Package log/slog: the attributes of a log line that are numbers.
use ebpf_ssf_broker.Base.{
  ◌≡◌, refl, Option, none, some, List, [], ◌∷◌, ◌++◌, arith, if◌then◌else◌, Text, text_eq,
}
use ebpf_ssf_broker.Base.Int.{ℤ}

abbrev pub Attrs : Type 0
Attrs = List (Text × ℤ)

-- The value under a key of a log line.
unfoldable pub attr : Attrs → Text → Option ℤ
attr [] key = none
attr ((k, v) ∷ attrs) key = if text_eq k key then some v else attr attrs key

abbrev pub or_later : Option ℤ → Option ℤ → Option ℤ
or_later none later = later
or_later (some v) later = some v

pub attr-append :
    (ps qs : Attrs) (key : Text) → attr (ps ++ qs) key ≡ or_later (attr ps key) (attr qs key)
unfolding attr
attr-append [] qs key = refl
attr-append ((k, v) ∷ ps) qs key = ground (arith, attr-append ps qs key)
