-- ===== src/Notification/Seeder/Examples.antt =====
-- The seeder on an empty table.
use microservices_base_platf.Prelude.{◌≡◌, refl, none, [], All}
use microservices_base_platf.Notification.Seeder.{Answers, templates, seed_all, seed_templates}
use microservices_base_platf.Notification.Seeder.Repeated.{Has, seed_templates-repeated}

abbrev fine : Answers
fine = record { find = λ event. none; create = λ event. none }

seeded : seed_templates fine [] ≡ (none, templates)
unfolding seed_templates seed_all
seeded = refl

seed_templates-repeated_example :
    All (λ t. Has templates t.event_type) templates
    × (seed_templates fine templates ≡ (none, templates))
seed_templates-repeated_example =
    seed_templates-repeated fine fine [] templates (λ event. refl) (λ event. refl) seeded
