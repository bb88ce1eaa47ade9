-- ===== src/Metrics/Series.antt =====
-- What cmd/actuator/metrics.go and cmd/service-a/metrics.go use of client_golang: counters and
-- histograms, each a family of series by its label values.
use ebpf_ssf_broker.Base.{
  ℕ, suc, ◌+◌, ◌≡◌, refl, ◌≢◌, inl, inr, false, Option, none, some, List, [], ◌∷◌, arith,
  if◌then◌else◌, Bool-cases, Text, text_eq, text_eq_iff, text_eq_refl, contains,
}
use ebpf_ssf_broker.Go.Clock.{Duration}

abbrev pub or_zero : Option ℕ → ℕ
or_zero none = 0
or_zero (some n) = n

-- prometheus.CounterVec with one label.
pub record CounterApi : Type 1 where
  pub Vec : Type 0
  -- promauto.NewCounterVec
  pub new_counter_vec : Vec
  -- WithLabelValues, which creates the series
  pub with_label_values : Vec → Text → Vec
  -- WithLabelValues(value).Inc()
  pub inc : Vec → Text → Vec

-- A scrape shows the series that exist, with their values.
pub record CounterLaws (api : CounterApi) : Type 0 where
  pub value : api.Vec → Text → Option ℕ
  pub value_new : (l : Text) → value api.new_counter_vec l ≡ none
  pub value_with_self :
      (v : api.Vec) (l : Text) → value (api.with_label_values v l) l ≡ some (or_zero (value v l))
  pub value_with_other :
      (v : api.Vec) (l k : Text)
      → text_eq l k ≡ false
      → value (api.with_label_values v l) k ≡ value v k
  pub value_inc_self :
      (v : api.Vec) (l : Text) → value (api.inc v l) l ≡ some (suc (or_zero (value v l)))
  pub value_inc_other :
      (v : api.Vec) (l k : Text) → text_eq l k ≡ false → value (api.inc v l) k ≡ value v k

-- prometheus.HistogramVec and prometheus.Histogram: a histogram without labels has the empty list.
pub record HistogramApi : Type 1 where
  pub Vec : Type 0
  -- promauto.NewHistogramVec and NewHistogram, with the bounds of the buckets in microseconds
  pub new_histogram_vec : (buckets : List ℕ) → Vec
  -- WithLabelValues(values...).Observe(d)
  pub observe : Vec → (labels : List Text) → Duration → Vec

-- How many observations a series has had, its _count.
pub record HistogramLaws (api : HistogramApi) : Type 0 where
  pub count : api.Vec → List Text → ℕ
  pub count_new : (buckets : List ℕ) (ls : List Text) → count (api.new_histogram_vec buckets) ls ≡ 0
  pub count_self :
      (v : api.Vec) (ls : List Text) (d : Duration)
      → count (api.observe v ls d) ls ≡ suc (count v ls)
  pub count_other :
      (v : api.Vec) (ls ks : List Text) (d : Duration)
      → ls ≢ ks
      → count (api.observe v ls d) ks ≡ count v ks

module _ (api : CounterApi) where
  -- The loop of an init function that creates the series of some labels at zero.
  unfoldable pub create_series : List Text → api.Vec → api.Vec
  create_series [] v = v
  create_series (l ∷ ls) v = create_series ls (api.with_label_values v l)

  -- One Inc for each label.
  unfoldable pub inc_each : List Text → api.Vec → api.Vec
  inc_each [] v = v
  inc_each (l ∷ ls) v = inc_each ls (api.inc v l)

-- How often a label is in the list.
abbrev pub occurrences : Text → List Text → ℕ
occurrences l [] = 0
occurrences l (k ∷ ks) = let rest = occurrences l ks in if text_eq k l then suc rest else rest

module _ (api : CounterApi) (laws : CounterLaws api) where
  value_with :
      (v : api.Vec) (k l : Text)
      → laws.value (api.with_label_values v k) l
        ≡ (if text_eq k l then some (or_zero (laws.value v l)) else laws.value v l)
  value_with v k l = elim (Bool-cases (text_eq k l)) [
    | inl same ↦ rw ((text_eq_iff k l).0 same, text_eq_refl l) (laws.value_with_self v l)
    | inr other ↦ rw other (laws.value_with_other v k l other)
  ]

  -- A series that was created is there, with its value from before or zero.
  pub value-create_series :
      (ls : List Text) (v : api.Vec) (l : Text)
      → laws.value (create_series api ls v) l
        ≡ (if contains ls l then some (or_zero (laws.value v l)) else laws.value v l)
  unfolding create_series contains
  value-create_series [] v l = refl
  value-create_series (k ∷ ls) v l =
      ground (arith, value-create_series ls (api.with_label_values v k) l, value_with v k l)

  pub value_inc :
      (v : api.Vec) (k l : Text)
      → laws.value (api.inc v k) l
        ≡ (if text_eq k l then some (suc (or_zero (laws.value v l))) else laws.value v l)
  value_inc v k l = elim (Bool-cases (text_eq k l)) [
    | inl same ↦ rw ((text_eq_iff k l).0 same, text_eq_refl l) (laws.value_inc_self v l)
    | inr other ↦ rw other (laws.value_inc_other v k l other)
  ]

  pub value-inc_each :
      (ls : List Text) (v : api.Vec) (l : Text)
      → or_zero (laws.value (inc_each api ls v) l) ≡ or_zero (laws.value v l) + occurrences l ls
  unfolding inc_each
  value-inc_each [] v l = omega arith
  value-inc_each (k ∷ ls) v l = ground (arith, value-inc_each ls (api.inc v k) l, value_inc v k l)
