-- ===== src/Tests/JailbreakRuns.antt =====
-- Jailbreak checks with numbers in place of floats, and an embedding of one number for every text.
use llmgov.Base.{ℕ, true, false, List, [], ◌∷◌, Option, some, none, Text, codes}
use llmgov.Tests.Values.{numbers}
use llmgov.Jailbreak.{References, detect_jailbreak}
use llmgov.Jailbreak.Loaded.{IsLoaded, detect_jailbreak-IsLoaded}

abbrev embed : Text → Option (List ℕ)
embed text = some (2 ∷ [])

abbrev ready : References numbers
ready = record { reference_vectors = (2 ∷ []) ∷ []; vectors_initialized = true }

abbrev unloaded : References numbers
unloaded = record { reference_vectors = []; vectors_initialized = false }

unloaded-IsLoaded : IsLoaded numbers embed unloaded
unloaded-IsLoaded = record { loaded = λ h. cc }

detect_jailbreak-IsLoaded_example :
    IsLoaded numbers embed (detect_jailbreak numbers embed (codes "hi") none 2 unloaded).1
detect_jailbreak-IsLoaded_example =
    detect_jailbreak-IsLoaded numbers embed (codes "hi") none 2 unloaded unloaded-IsLoaded
