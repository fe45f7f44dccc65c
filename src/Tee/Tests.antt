-- ===== src/Tee/Tests.antt =====
-- Runs of the tee on concrete answers.
use router.Prelude.{◌≡◌, refl, true, false, [], ◌∷◌, List}
use router.Tee.{Upstream, tee, serve}
use router.Tee.Once.{passed, report, sent, is_complete, serve-tee}

abbrev answers : List Upstream
answers = Upstream.chunk (1 ∷ 2 ∷ []) ∷ Upstream.chunk (3 ∷ []) ∷ Upstream.ended ∷ []

copied : (serve tee answers).1 ≡ (1 ∷ 2 ∷ 3 ∷ [], true) ∷ []
unfolding serve router.Tee.drop_body router.Tee.poll tee router.Tee.drop_guard router.Tee.fire_now
    router.Tee.capture
copied = refl

disconnected : (serve tee (Upstream.chunk (1 ∷ 2 ∷ []) ∷ [])).1 ≡ (1 ∷ 2 ∷ [], false) ∷ []
unfolding serve router.Tee.drop_body router.Tee.poll tee router.Tee.drop_guard router.Tee.fire_now
    router.Tee.capture
disconnected = refl

serve-tee_example :
    serve tee answers ≡ (passed answers, report (sent answers) (is_complete answers) ∷ [])
serve-tee_example = serve-tee answers
