-- ===== src/Program/Boots.antt =====
-- When the program of main.go gets as far as its server.
use perion_assignment.Common.{
  ℕ, ◌≡◌, refl, ◌⊎◌, inl, inr, ◌↔◌, Option, none, Bool-cases, Option-cases,
}
use perion_assignment.Text.{Text, codes, text_eq, text_eq_iff}
use perion_assignment.Models.Errors.{GoError, Result, ok, err, Result-cases}
use perion_assignment.Config.{Config}
use perion_assignment.Program.{
  initialize_cache, Program, start, Boot, fatal_boot, ready, on_start, boot,
}

abbrev pub IsReady : {R : Type 0} → Boot R → Type 0
IsReady (ready program log) = Unit
IsReady (fatal_boot why log) = ⊥

-- A configuration whose cache can be had.
abbrev pub HasCache : {R : Type 0} → (Text → Result R) → Config → Type 0
HasCache {R} new_redis cfg =
    (cfg.cache_type ≡ codes "memory")
    ⊎ ((cfg.cache_type ≡ codes "redis") × ((r : R) × (new_redis cfg.redis_url ≡ ok r)))

abbrev IsOk : {A : Type 0} → Result A → Type 0
IsOk (ok a) = Unit
IsOk (err e) = ⊥

module _ {R : Type 0} (new_redis : Text → Result R) (cfg : Config) (now : ℕ) where
  on_start-IsReady : (r : Result (Program R)) → IsReady (on_start r) ↔ IsOk r
  on_start-IsReady (ok program) = ((λ h. h), (λ h. h))
  on_start-IsReady (err e) = ((λ h. h), (λ h. h))

  initialize_cache_iff : IsOk (initialize_cache new_redis cfg) ↔ HasCache new_redis cfg
  unfolding initialize_cache text_eq
  initialize_cache_iff = (forth, back)
    where
      forth : IsOk (initialize_cache new_redis cfg) → HasCache new_redis cfg
      forth = elim (Bool-cases (text_eq cfg.cache_type (codes "redis"))) [
        | inl is_redis ↦ elim (Result-cases (new_redis cfg.redis_url)) [
          | inl (r, e) ↦ λ _. inr ((text_eq_iff cfg.cache_type (codes "redis")).0 is_redis, (r, e))
          | inr (x, e) ↦ rw (is_redis, e) (λ h. absurd h)
        ]
        | inr other ↦ elim (Bool-cases (text_eq cfg.cache_type (codes "memory"))) [
          | inl is_memory ↦ λ _. inl ((text_eq_iff cfg.cache_type (codes "memory")).0 is_memory)
          | inr neither ↦ rw (other, neither) (λ h. absurd h)
        ]
      ]

      back : HasCache new_redis cfg → IsOk (initialize_cache new_redis cfg)
      back (inl is_memory) = rw is_memory tt
      back (inr (is_redis, (r, e))) = rw (is_redis, e) tt

  start_iff : IsOk (start new_redis cfg now) ↔ IsOk (initialize_cache new_redis cfg)
  unfolding start
  start_iff = elim (Result-cases (initialize_cache new_redis cfg)) [
    | inl (c, e) ↦ rw e ((λ h. h), (λ h. h))
    | inr (x, e) ↦ rw e ((λ h. h), (λ h. h))
  ]

  -- The program gets as far as its server exactly when it has its connection to the log's database
  -- and the configured cache is the one in memory, or Redis and can be reached.
  pub boot-IsReady :
      (connect : Text → Option GoError)
      → IsReady (boot connect new_redis cfg now)
        ↔ ((connect cfg.database_url ≡ none) × HasCache new_redis cfg)
  unfolding boot
  boot-IsReady connect = elim (Option-cases (connect cfg.database_url)) [
    | inl connected ↦ rw connected (
      (λ h. (
        refl,
        initialize_cache_iff.0 (start_iff.0 ((on_start-IsReady (start new_redis cfg now)).0 h)),
      )),
      (λ h.
          (on_start-IsReady (start new_redis cfg now)).1
            (start_iff.1 (initialize_cache_iff.1 h.1))),
    )
    | inr (e, lost) ↦ rw lost ((λ h. absurd h), (λ h. absurd (cc h.0)))
  ]
