-- ===== src/Index/Summary/Tests.antt =====
-- A summary of two suites, and an instance of each result.
use xrpl_hive.Base.{
  ℕ, zero, suc, Bool, true, false, [], ◌∷◌, none, some, Text, codes, ◌≡◌, ◌⊎◌, refl, leb, length,
  arith, Bool-cases, inl, inr, sym, some_inj,
}
use mathlib.Core.Path.{subst}
use xrpl_hive.Maps.{same, get}
use xrpl_hive.Index.Filters.Pattern.{reads_search}
use xrpl_hive.Index.Filters.{Filter, key, same_filter}
use xrpl_hive.Index.Boxes.{Dates, ClientBox, all_passed}
use xrpl_hive.Index.Boxes.Display.{Pointwise}
use xrpl_hive.Index.Summary.{
  Summary, on_key, press_key, client_boxes, filter_client, filter_suite_and_client, is_box,
  sort_all_clients,
}
use xrpl_hive.Index.Summary.Navigation.{InRange, on_key-InRange}
use xrpl_hive.Index.Summary.Clicks.{filter_client-drawn, filter_suite_and_client-drawn}
use xrpl_hive.Index.Summary.Moves.{right, left, selection, Apart, press_key-selection}
use xrpl_hive.Index.Summary.Sorted.{SortedBox, sort_all_clients-SortedBox}

-- A time that is not shown.
abbrev no_dates : Dates
no_dates = record { ago = λ t. []; text = λ t. t }

abbrev no_time : Text → Text
no_time t = []

abbrev client_box_of : Text → Text → Text → Bool → ClientBox
client_box_of suite client time selected = record {
  suite = suite;
  client = client;
  time = time;
  name = client;
  status = all_passed;
  passes = 1;
  fails = 0;
  ago = [];
  dots = [];
  selected = selected;
}

abbrev page : Summary
page = record {
  suites = [];
  clients = [];
  boxes =
      record {
        by_client = false;
        title = codes "rpc";
        boxes = client_box_of (codes "rpc") (codes "a") (codes "1") true ∷ [];
        selected = true;
      }
      ∷ record {
        by_client = false;
        title = codes "sync";
        boxes =
            client_box_of (codes "sync") (codes "a") (codes "1") false
            ∷ client_box_of (codes "sync") (codes "b") (codes "2") false
            ∷ [];
        selected = false;
      }
      ∷ [];
  active = none;
  sort_label = codes "Name";
  controls = record {
    values = λ _. none;
    columns = λ _. none;
    searches = [];
    drawn = record { columns = λ _. none; custom = [] };
    url = (codes "group-by", codes "suite") ∷ [];
    notice = false;
  };
}

-- Names by their length, which is a comparison.
abbrev shorter : Text → Text → Bool
shorter a b = leb (length a) (length b)

abbrev one_hundred : ClientBox → ℕ
one_hundred c = 100

shorter_total : (a b : Text) → (shorter a b ≡ true) ⊎ (shorter b a ≡ true)
shorter_total a b = elim (Bool-cases (shorter a b)) [ inl q ↦ inl q | inr q ↦ inr (ground arith) ]

shorter_trans : (a b c : Text) → shorter a b ≡ true → shorter b c ≡ true → shorter a c ≡ true
shorter_trans a b c p q = ground arith

apart :
    (i j : ℕ) (x y c d : ClientBox)
    → is_box x.suite x.client y ≡ false
    → some x ≡ some c
    → some y ≡ some d
    → is_box c.suite c.client d ≡ true
    → i ≡ j
apart i j x y c d h e f q =
    let k : is_box x.suite x.client y ≡ true =
      subst (λ z. is_box z.suite z.client y ≡ true) (sym (some_inj e))
        (subst (λ z. is_box c.suite c.client z ≡ true) (sym (some_inj f)) q) in
    cc

page-Apart : Apart (client_boxes page.boxes)
page-Apart zero zero c d e f q = refl
page-Apart zero (suc zero) c d e f q = apart 0 1 _ _ c d refl e f q
page-Apart zero (suc (suc zero)) c d e f q = apart 0 2 _ _ c d refl e f q
page-Apart (suc zero) zero c d e f q = apart 1 0 _ _ c d refl e f q
page-Apart (suc zero) (suc zero) c d e f q = refl
page-Apart (suc zero) (suc (suc zero)) c d e f q = apart 1 2 _ _ c d refl e f q
page-Apart (suc (suc zero)) zero c d e f q = apart 2 0 _ _ c d refl e f q
page-Apart (suc (suc zero)) (suc zero) c d e f q = apart 2 1 _ _ c d refl e f q
page-Apart (suc (suc zero)) (suc (suc zero)) c d e f q = refl
page-Apart i (suc (suc (suc j))) c d e f q = cc
page-Apart (suc (suc (suc i))) j c d e f q = cc

on_key-InRange_example : InRange right page (on_key right page)
on_key-InRange_example = on_key-InRange right page

press_key-selection_example :
    (s' : Summary) × (press_key shorter no_dates no_time right page ≡ some s')
    × (selection s' ≡ some 1)
    × ((s'' : Summary) × (press_key shorter no_dates no_time left s' ≡ some s'')
        × (selection s'' ≡ some 0))
press_key-selection_example =
    press_key-selection no_time shorter no_dates page 0 page-Apart refl (omega arith)

filter_client-drawn_example :
    (let c = (filter_client no_time (codes "a") page).controls in
      (get (key Filter.client) c.url ≡ some (codes "a"))
      × (get (key Filter.suite) c.url ≡ none)
      × (c.notice ≡ true)
      × (c.drawn.custom ≡ [])
      × (c.drawn.columns Filter.suite ≡ none)
      × ((g : Filter)
          → same_filter g Filter.suite ≡ false
          → c.drawn.columns g ≡ page.controls.columns g))
filter_client-drawn_example = filter_client-drawn no_time (codes "a") page (λ e. cc)

filter_suite_and_client-drawn_example :
    (let c = (filter_suite_and_client no_time (codes "eth.rpc") (codes "a") page).controls in
      (get (key Filter.suite) c.url ≡ some (codes "eth.rpc"))
      × (get (key Filter.client) c.url ≡ some (codes "a"))
      × (c.notice ≡ true)
      × (c.drawn.custom ≡ codes "a" ∷ [])
      × (reads_search (c.drawn.columns Filter.suite)
          ≡ some (record { from_start = true; letters = codes "eth.rpc"; to_end = true })))
filter_suite_and_client-drawn_example =
    filter_suite_and_client-drawn no_time (codes "eth.rpc") (codes "a") page (λ e. cc) (λ e. cc)

sort_all_clients-SortedBox_example :
    (let s' = sort_all_clients shorter length one_hundred (codes "time") page in
      Pointwise
        (SortedBox shorter length one_hundred shorter_total shorter_trans (codes "time"))
        page.boxes
        s'.boxes
      × (get (codes "summary-sort") s'.controls.url ≡ some (codes "time"))
      × ((k : Text)
          → same k (codes "summary-sort") ≡ false
          → get k s'.controls.url ≡ get k page.controls.url))
sort_all_clients-SortedBox_example =
    sort_all_clients-SortedBox shorter length one_hundred shorter_total shorter_trans (codes "time")
      page
