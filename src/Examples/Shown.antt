-- ===== src/Examples/Shown.antt =====
-- A packet as text, with and without colors.
use samsung_nasa.Base.{◌≡◌, true, false}
use samsung_nasa.Pretty.{pretty_print}
use samsung_nasa.Pretty.Plain.{plain}
use samsung_nasa.Pretty.Uncolored.{uncolored, uncolored-pretty_print}
use samsung_nasa.Examples.{request}

uncolored-pretty_print_example :
    (uncolored false (pretty_print true request) ≡ pretty_print false request)
    × (plain (pretty_print false request) ≡ true)
uncolored-pretty_print_example = uncolored-pretty_print request
