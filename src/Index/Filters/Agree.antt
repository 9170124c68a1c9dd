-- ===== src/Index/Filters/Agree.antt =====
-- The filters, the URL and the notice agree.
use xrpl_hive.Base.{
  Bool, true, false, [], ◌∷◌, Option, none, some, Text, ◌≡◌, refl, ap, sym, ◌∙◌, if◌then◌else◌,
  arith,
}
use xrpl_hive.Maps.{same, Map, get}
use xrpl_hive.Maps.{get-delete_param, get-set_param}
use xrpl_hive.Index.Filters.{
  Filter, key, same_filter, Controls, update, store_to_url, filter_changed, store_and_notify,
  apply_client, apply_column, apply, clear,
}

pub same-key : (f g : Filter) → same (key f) (key g) ≡ same_filter f g
unfolding key
same-key Filter.daysago Filter.daysago = refl
same-key Filter.daysago Filter.suite = refl
same-key Filter.daysago Filter.client = refl
same-key Filter.daysago Filter.status = refl
same-key Filter.suite Filter.daysago = refl
same-key Filter.suite Filter.suite = refl
same-key Filter.suite Filter.client = refl
same-key Filter.suite Filter.status = refl
same-key Filter.client Filter.daysago = refl
same-key Filter.client Filter.suite = refl
same-key Filter.client Filter.client = refl
same-key Filter.client Filter.status = refl
same-key Filter.status Filter.daysago = refl
same-key Filter.status Filter.suite = refl
same-key Filter.status Filter.client = refl
same-key Filter.status Filter.status = refl

-- The value that the URL has for a filter: none if it is not set or empty.
abbrev pub stored : Option Text → Option Text
stored none = none
stored (some []) = none
stored (some (c ∷ v)) = some (c ∷ v)

abbrev pub UrlAgrees : Controls → Type 0
UrlAgrees s = (f : Filter) → get (key f) s.url ≡ stored (s.values f)

get-store_to_url :
    (j : Text) (f : Filter) (v : Text) (p : Map Text)
    → get j (store_to_url f v p) ≡ (if same j (key f) then stored (some v) else get j p)
unfolding store_to_url
get-store_to_url j f [] p = get-delete_param j (key f) p
get-store_to_url j f (c ∷ v) p = get-set_param j (key f) (c ∷ v) p

-- What `apply` leaves in the values, the URL and the notice.
abbrev pub Stored : Filter → Text → Controls → Controls → Type 0
Stored f v s s' =
    (s'.values ≡ update f (some v) s.values)
    × (s'.url ≡ store_to_url f v s.url)
    × (s'.notice ≡ filter_changed s'.values)

pub apply-Stored :
    (minus_x_days : Text → Text) (f : Filter) (v : Text) (s : Controls)
    → Stored f v s (apply minus_x_days f v s)
unfolding apply apply_column apply_client store_and_notify
apply-Stored m Filter.daysago v s = (refl, refl, refl)
apply-Stored m Filter.suite v s = (refl, refl, refl)
apply-Stored m Filter.client v s = (refl, refl, refl)
apply-Stored m Filter.status v s = (refl, refl, refl)

stored-update :
    (b : Bool) (v : Text) (o x : Option Text)
    → x ≡ stored o
    → (if b then stored (some v) else x) ≡ stored (if b then some v else o)
stored-update true v o x h = refl
stored-update false v o x h = h

-- If the hash of the URL holds the values of the filters that are set, it does after `apply` with any
-- value; and other parameters of the URL stay as they are. The notice is shown exactly if a filter is
-- active.
pub apply-UrlAgrees :
    (minus_x_days : Text → Text) (f : Filter) (v : Text) (s : Controls)
    → UrlAgrees s
    → (let s' = apply minus_x_days f v s in
        UrlAgrees s'
        × (s'.notice ≡ filter_changed s'.values)
        × ((j : Text) → same j (key f) ≡ false → get j s'.url ≡ get j s.url))
apply-UrlAgrees m f v s h =
    let (values, url, notice) = apply-Stored m f v s in
    (
      λ g.
          ap (get (key g)) url
          ∙ get-store_to_url (key g) f v s.url
          ∙ rw (same-key g f)
              (stored-update (same_filter g f) v (s.values g) (get (key g) s.url) (h g))
          ∙ ap (λ u. stored (u g)) (sym values),
      notice,
      λ j apart. ap (get j) url ∙ get-store_to_url j f v s.url ∙ rw apart refl,
    )

pub get-apply_url :
    (minus_x_days : Text → Text) (j : Text) (f : Filter) (v : Text) (s : Controls)
    → get j (apply minus_x_days f v s).url
      ≡ (if same j (key f) then stored (some v) else get j s.url)
get-apply_url m j f v s = ap (get j) (apply-Stored m f v s).1 ∙ get-store_to_url j f v s.url

get-clear_url :
    (minus_x_days : Text → Text) (j : Text) (s : Controls)
    → get j (clear minus_x_days s).url ≡ (
        if same j (key Filter.status)
        then none
        else (if same j (key Filter.client)
            then none
            else (if same j (key Filter.suite)
                then none
                else (if same j (key Filter.daysago) then none else get j s.url))))
unfolding clear
get-clear_url m j s =
    let s1 = apply m Filter.daysago [] s in
    let s2 = apply m Filter.suite [] s1 in
    let s3 = apply m Filter.client [] s2 in
    rw
      (
        get-apply_url m j Filter.status [] s3,
        get-apply_url m j Filter.client [] s2,
        get-apply_url m j Filter.suite [] s1,
        get-apply_url m j Filter.daysago [] s,
      )
      refl

none_of :
    (f : Filter) (o : Option Text)
    → (if same_filter f Filter.status
        then none
        else (if same_filter f Filter.client
            then none
            else (if same_filter f Filter.suite
                then none
                else (if same_filter f Filter.daysago then none else o))))
      ≡ none
none_of Filter.daysago o = refl
none_of Filter.suite o = refl
none_of Filter.client o = refl
none_of Filter.status o = refl

-- After `clear`, the hash of the URL has no filter and else what it had, the notice is hidden, and the
-- draw has no custom search but those that were there, and searches no column, but for what was set on the column of the clients, a column.
pub clear_unsets :
    (minus_x_days : Text → Text) (s : Controls)
    → (let s' = clear minus_x_days s in
        ((f : Filter) → get (key f) s'.url ≡ none)
        × ((j : Text) → ((f : Filter) → same j (key f) ≡ false) → get j s'.url ≡ get j s.url)
        × (s'.notice ≡ false)
        × (s'.drawn.custom ≡ s.searches)
        × ((f : Filter) → same_filter f Filter.client ≡ false → s'.drawn.columns f ≡ none))
unfolding clear apply apply_column apply_client store_and_notify filter_changed
clear_unsets m s = (unset, kept, refl, refl, searched)
  where
    unset : (f : Filter) → get (key f) (clear m s).url ≡ none
    unset f =
        rw
          (
            get-clear_url m (key f) s,
            same-key f Filter.status,
            same-key f Filter.client,
            same-key f Filter.suite,
            same-key f Filter.daysago,
          )
          (none_of f (get (key f) s.url))

    kept :
        (j : Text) → ((f : Filter) → same j (key f) ≡ false) → get j (clear m s).url ≡ get j s.url
    kept j apart =
        rw
          (
            get-clear_url m j s,
            apart Filter.status,
            apart Filter.client,
            apart Filter.suite,
            apart Filter.daysago,
          )
          refl

    searched :
        (f : Filter) → same_filter f Filter.client ≡ false → (clear m s).drawn.columns f ≡ none
    searched Filter.daysago h = refl
    searched Filter.suite h = refl
    searched Filter.client h = absurd (ground arith)
    searched Filter.status h = refl
