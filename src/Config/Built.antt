-- ===== src/Config/Built.antt =====
-- What an accepted configuration of config.py is made of: `from_mapping` as a whole, by section.
use ca1_health_monitor.Prelude.{
  String, true, false, Bool-cases, Option, none, some, [], ◌∷◌, returned, >>=-returned,
  returned-injective, ◌==◌, eq_iff, ◌≡◌, inl, inr, refl, sym, subst, ◌∙◌,
}
use ca1_health_monitor.Prelude.Dict.{Dict, get, Distinct}
use ca1_health_monitor.Common.Types.{Value, dict, Payload}
use ca1_health_monitor.Config.Fields.{Section, section_name}
use ca1_health_monitor.Config.Coerce.{Loaded, apply_section}
use ca1_health_monitor.Config.Environment.{Collected}
use ca1_health_monitor.Config.Load.{
  Draft, section_document, object_items, items_of, as_texts, override, override_all,
}
use ca1_health_monitor.Config.Sections.{only}

abbrev entries_of_value : Option Value → Payload
unfolding items_of
entries_of_value (some (dict fs)) = items_of fs
entries_of_value _ = []

-- The entries of the document's object for a section.
unfoldable pub section_entries : Section → Payload → Payload
unfolding get entries_of_value
section_entries s document = entries_of_value (get (section_name s) document)

abbrev entries_of_leaves : Option (Dict String) → Payload
unfolding as_texts
entries_of_leaves none = []
entries_of_leaves (some leaves) = as_texts leaves

-- The entries of the environment for a section, or for the fields of the service under "".
unfoldable pub entries_for : String → Collected → Payload
unfolding get entries_of_leaves
entries_for name collected = entries_of_leaves (get name collected)

object_items-entries :
    (s : Section) (v : Option Value) (e : Payload)
    → object_items s v ≡ returned e
    → e ≡ entries_of_value v
unfolding object_items entries_of_value
object_items-entries s none e h = sym (returned-injective h)
object_items-entries s (some (dict fs)) e h = sym (returned-injective h)
object_items-entries s (some _) e h = absurd (cc h)

pub section_document-entries :
    (s : Section) (document e : Payload)
    → section_document s document ≡ returned e
    → e ≡ section_entries s document
unfolding section_document section_entries
section_document-entries s document e h = object_items-entries s (get (section_name s) document) e h

pub entries_hit :
    (section name : String) (leaves : Dict String) (rest : Collected)
    → (section == name) ≡ true
    → entries_for name ((section, leaves) ∷ rest) ≡ as_texts leaves
unfolding entries_for get
entries_hit section name leaves rest e = rw e refl

pub entries_miss :
    (section name : String) (leaves : Dict String) (rest : Collected)
    → (section == name) ≡ false
    → entries_for name ((section, leaves) ∷ rest) ≡ entries_for name rest
unfolding entries_for get
entries_miss section name leaves rest e = rw e refl

pub entries_none :
    (name : String) (rest : Collected) → get name rest ≡ none → entries_for name rest ≡ []
unfolding entries_for
entries_none name rest e = rw e refl

module _ (repr : Value → String) where
  -- The loop over the environment, for whatever a round does with the entries of one name.
  pub override_all-applied :
      {X : Type 0} (At : Draft → X → Type 0) (step : String → Value → String → X → Loaded X)
      (before name : String)
      → ((section : String) (entries : Payload) (d d' : Draft) (y : X)
          → override repr section entries d ≡ returned d'
          → At d' y
          → (x : X) × At d x
            × (apply_section step (only (section == name) entries) before x ≡ returned y))
      → (collected : Collected) (d d' : Draft) (y : X) → Distinct collected
      → override_all repr collected d ≡ returned d'
      → At d' y
      → (x : X) × At d x × (apply_section step (entries_for name collected) before x ≡ returned y)
  unfolding override_all entries_for apply_section get
  override_all-applied At step before name round [] d d' y n h k =
      (y, subst (λ d. At d y) (sym (returned-injective h)) k, refl)
  override_all-applied At step before name round ((section, leaves) ∷ rest) d d' y (n, ns) h k =
      let (m, hm, hd) =
        >>=-returned (override repr section (as_texts leaves) d) (override_all repr rest) h in
      let (z, kz, hz) = override_all-applied At step before name round rest m d' y ns hd k in
      let (x, kx, hx) = round section (as_texts leaves) d m z hm kz in
      elim (Bool-cases (section == name)) [
        | inl e ↦ (
          x,
          kx,
          rw (entries_hit section name leaves rest e) (rw e at hx)
              ∙ (rw
                  (entries_none name rest
                    (subst (λ a. get a rest ≡ none) ((eq_iff section name).0 e) n))
                  at hz),
        )
        | inr e ↦ (
          x,
          kx,
          rw (entries_miss section name leaves rest e) (
              subst (λ w. apply_section step (entries_for name rest) before w ≡ returned y)
                (sym (returned-injective (rw e at hx))) hz),
        )
      ]
