-- ===== src/Config/Override.antt =====
-- What the environment does in `from_mapping` of config.py, by section.
use ca1_health_monitor.Prelude.{
  String, Bool-cases, Option-cases, [], ◌∷◌, returned, >>=-returned, ◌==◌, All, ◌≡◌, inl, inr, refl,
  ap, ◌∙◌,
}
use ca1_health_monitor.Prelude.Text.{append}
use ca1_health_monitor.Prelude.Dict.{Dict, get, put, Distinct, put-Distinct}
use ca1_health_monitor.Common.Types.{Value}
use ca1_health_monitor.Config.Fields.{Values, Section, section_name, service_fields, section_fields}
use ca1_health_monitor.Config.Coerce.{assign, apply_section}
use ca1_health_monitor.Config.Environment.{Collected, target_of, collect, collect_all}
use ca1_health_monitor.Config.Load.{object, Draft, as_texts, override, override_all}
use ca1_health_monitor.Config.Sections.{Applied, override-Applied}
use ca1_health_monitor.Config.Service.{Whole, NoSection, override-service}
use ca1_health_monitor.Config.Built.{
  entries_for, entries_hit, entries_miss, entries_none, override_all-applied,
}

collect-Distinct :
    (target : String × String) (raw_value : String) (d : Collected)
    → Distinct d
    → Distinct (collect target raw_value d)
unfolding collect
collect-Distinct (section, leaf) raw_value d h = elim (Option-cases (get section d)) [
  | inl n ↦ rw (collect, n) (put-Distinct section (put leaf raw_value []) d h)
  | inr (leaves, n) ↦ rw (collect, n) (put-Distinct section (put leaf raw_value leaves) d h)
]

pub collect_all-Distinct :
    (environ : Dict String) (d : Collected) → Distinct d → Distinct (collect_all environ d)
unfolding collect_all
collect_all-Distinct [] d h = h
collect_all-Distinct ((key, raw_value) ∷ rest) d h = elim (Option-cases (target_of key)) [
  | inl n ↦ rw (collect_all, n) (collect_all-Distinct rest d h)
  | inr (target, n) ↦
      rw (collect_all, n)
        (collect_all-Distinct rest (collect target raw_value d)
          (collect-Distinct target raw_value d h))
]

module _ (repr : Value → String) where
  pub environment-object :
      (s : Section) (collected : Collected) (d d' : Draft) (ys : Values (section_fields s))
      → Distinct collected
      → override_all repr collected d ≡ returned d'
      → d'.slot s ≡ object ys
      → Applied repr s (entries_for (section_name s) collected) (d.slot s) ys
  environment-object s =
      override_all-applied repr (λ d ys. d.slot s ≡ object ys) (assign repr (section_fields s))
        (append (section_name s) ".") (section_name s)
        (λ section entries d d' ys h k. override-Applied repr section s entries d d' ys h k)

  pub environment-Whole :
      (collected : Collected) (d d' : Draft)
      → Distinct collected
      → override_all repr collected d ≡ returned d'
      → Whole d'
      → Whole d
  environment-Whole collected d d' n h w s =
      let (xs, kx, hx) = environment-object s collected d d' (w s).0 n h (w s).1 in (xs, kx)

  pub environment-service :
      (collected : Collected) (d d' : Draft) (ys : Values service_fields)
      → Distinct collected
      → override_all repr collected d ≡ returned d'
      → (d'.service ≡ ys) × Whole d'
      → (xs : Values service_fields) × ((d.service ≡ xs) × Whole d)
        × (apply_section (assign repr service_fields) (entries_for "" collected) "" xs
            ≡ returned ys)
  environment-service =
      override_all-applied repr (λ d ys. (d.service ≡ ys) × Whole d) (assign repr service_fields) ""
        ""
        (λ section entries d d' ys h (k, w). (
          d.service,
          (
            refl,
            λ s.
                let (xs, kx, hx) = override-Applied repr section s entries d d' (w s).0 h (w s).1 in
                (xs, kx),
          ),
          (override-service repr section entries d d' h w).1 ∙ ap returned k,
        ))

  pub environment-NoSection :
      (collected : Collected) (d d' : Draft)
      → Distinct collected
      → override_all repr collected d ≡ returned d'
      → Whole d'
      → All NoSection (entries_for "" collected)
  unfolding override_all get
  environment-NoSection [] d d' n h w = rw (entries_none "" [] refl) tt
  environment-NoSection ((section, leaves) ∷ rest) d d' (n, ns) h w =
      let (m, hm, hd) =
        >>=-returned (override repr section (as_texts leaves) d) (override_all repr rest) h in
      elim (Bool-cases (section == "")) [
        | inl e ↦ rw (entries_hit section "" leaves rest e) (
            rw e at
              (override-service repr section (as_texts leaves) d m hm
                (environment-Whole rest m d' ns hd w)).0)
        | inr e ↦
            rw (entries_miss section "" leaves rest e) (environment-NoSection rest m d' ns hd w)
      ]
