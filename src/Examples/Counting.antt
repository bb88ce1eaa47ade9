-- ===== src/Examples/Counting.antt =====
-- Counters as functions of the label value.
use ebpf_ssf_broker.Base.{
  ℕ, suc, ◌≡◌, refl, ◌≢◌, ◌↔◌, Bool, true, false, ◌&&◌, Option, none, some, List, [], ◌∷◌, arith,
  if◌then◌else◌, Text, text_eq, text_eq_iff, text_eq_refl,
}
use ebpf_ssf_broker.Metrics.Series.{or_zero, CounterApi, CounterLaws, HistogramApi, HistogramLaws}
use ebpf_ssf_broker.Actuator.Registry.Performed.{ClientLaws}
use ebpf_ssf_broker.Actuator.Registry.{Client}

abbrev pub sample_counters : CounterApi
sample_counters = record {
  Vec = Text → Option ℕ;
  new_counter_vec = λ k. none;
  with_label_values = λ v l k. if text_eq l k then some (or_zero (v l)) else v k;
  inc = λ v l k. if text_eq l k then some (suc (or_zero (v l))) else v k;
}

abbrev pub sample_counter_laws : CounterLaws sample_counters
sample_counter_laws = record {
  value = λ v k. v k;
  value_new = λ l. refl;
  value_with_self = λ v l. rw (text_eq_refl l) refl;
  value_with_other = λ v l k h. rw h refl;
  value_inc_self = λ v l. rw (text_eq_refl l) refl;
  value_inc_other = λ v l k h. rw h refl;
}

-- Histograms as functions of the label values.
unfoldable pub texts_eq : List Text → List Text → Bool
texts_eq [] [] = true
texts_eq [] (k ∷ ks) = false
texts_eq (l ∷ ls) [] = false
texts_eq (l ∷ ls) (k ∷ ks) = text_eq l k && texts_eq ls ks

pub texts_eq_iff : (ls ks : List Text) → (texts_eq ls ks ≡ true) ↔ (ls ≡ ks)
unfolding texts_eq
texts_eq_iff [] [] = ground arith
texts_eq_iff [] (k ∷ ks) = ground arith
texts_eq_iff (l ∷ ls) [] = ground arith
texts_eq_iff (l ∷ ls) (k ∷ ks) = ground (arith, text_eq_iff l k, texts_eq_iff ls ks)

abbrev pub sample_histograms : HistogramApi
sample_histograms = record {
  Vec = List Text → ℕ;
  new_histogram_vec = λ bounds ks. 0;
  observe = λ v ls d ks. if texts_eq ls ks then suc (v ls) else v ks;
}

pub observed_other :
    (v : List Text → ℕ) (ls ks : List Text)
    → ls ≢ ks
    → (if texts_eq ls ks then suc (v ls) else v ks) ≡ v ks
observed_other v ls ks h = ground (arith, texts_eq_iff ls ks)

abbrev pub sample_histogram_laws : HistogramLaws sample_histograms
sample_histogram_laws = record {
  count = λ v ks. v ks;
  count_new = λ bounds ls. refl;
  count_self = λ v ls d. rw ((texts_eq_iff ls ls).1 refl) refl;
  count_other = λ v ls ks d h. observed_other v ls ks h;
}

abbrev pub sample_client : Client
sample_client = record { counters = sample_counters; histograms = sample_histograms }

abbrev pub sample_client_laws : ClientLaws sample_client
sample_client_laws = record { counters = sample_counter_laws; histograms = sample_histogram_laws }
