-- ===== src/Ecs/Save/Tests.antt =====
-- The save file of src/ecs.c on small inputs.
use evil_engine.Base.{ℕ, ◌+◌, ◌*◌, ◌≤◌, ◌<◌, ◌≡◌, ◌≢◌, ◌⊎◌, refl, arith, true, some, List, []}
use evil_engine.Ecs.{Ecs, unused, max_entities, max_component_types, create}
use evil_engine.Ecs.Component.{Memory}
use evil_engine.Ecs.Save.{ReadResult, save_data, save_size, load_data, load_game}
use evil_engine.Ecs.Save.RoundTrip.{Fits, Restored, load_data-save_data, load_game_lem}

-- A table whose component type 0 has eight bytes and is saved.
abbrev saved : Ecs
saved = record create {
  components = λ t. some 4096;
  component_type_sizes = λ t. 8;
  save_component = λ t. true;
}

abbrev blank : Memory
blank = λ p. 0

saved-Fits : Fits saved
unfolding create
saved-Fits = record { global = omega arith; sequences = λ i. omega arith; masks = λ i. omega arith }

load_data-save_data_example :
    Restored saved blank 8192
      (save_data saved blank blank).bytes
      (load_data (λ v. unused) 8192 (save_data saved blank blank).bytes saved).ecs
load_data-save_data_example =
    load_data-save_data (λ v. unused) saved saved blank blank 8192 saved-Fits (λ t. refl)
      (λ t. refl)

abbrev done : ℕ
done = 0

abbrev read_saved : ℕ → List ℕ → ℕ → ReadResult ℕ
read_saved fs path heap = record {
  result = done;
  heap = heap;
  buffer = 8192;
  size = 300000;
  bytes = blank;
}

abbrev loaded : ℕ × Ecs
loaded = load_game (λ heap a. heap) read_saved [] (λ v. unused) 5 saved 0

load_game_lem_example :
    ((done ≢ 0) × (loaded.1 ≡ saved) × (loaded.0 ≡ 5))
    ⊎ ((done ≡ 0)
        × (loaded.0 ≡ 5)
        × ((t : ℕ)
            → t < max_component_types
            → true ≡ true
            → (a : ℕ) × (loaded.1.components t ≡ some (8192 + a))
              × ((300000 < save_size saved) ⊎ (a + max_entities * 8 ≤ 300000))))
load_game_lem_example = load_game_lem (λ heap a. heap) read_saved [] (λ v. unused) 5 saved 0
