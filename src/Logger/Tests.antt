-- ===== src/Logger/Tests.antt =====
-- SORM/logger/log.go: an error ends the program at every level, shown or not.
use golang_frame_practice.Common.Outcome.{exits}
use golang_frame_practice.Common.{ℕ, ◌≡◌, refl, [], ◌∷◌, text}
use golang_frame_practice.Logger.{loggers, disable, error_level, set_level, error}

quiet_error : error {A = ℕ} (set_level disable loggers) (text "no") [] ≡ ([], exits (text "no"))
unfolding set_level error
quiet_error = refl

shown_error :
    error {A = ℕ} (set_level error_level loggers) (text "no") []
    ≡ (text "[error]no" ∷ [], exits (text "no"))
unfolding set_level error
shown_error = refl
