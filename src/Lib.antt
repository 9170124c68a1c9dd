-- ===== src/Lib.antt =====
-- hiveview, the web viewer of xrpl-hive for test results (cmd/hiveview/assets/lib).
--
-- The pages load suites and logs from a server and show them. app-index.js shows the listing of
-- suite runs and a summary of them, app-suite.js the tests of one run, app-viewer.js a log or other
-- text. testlog.js, which app-suite.js uses, cuts logs into lines and fetches them in pieces.
--
-- Base holds the shared names: Boolean tests and lists over the native numbers, texts as lists of
-- code units (indexOf, lastIndexOf, substring, slice) and signed integers.
--
-- Maps is objects and Maps with texts as keys, Sorting is `Array.prototype.sort`.
--
-- TestLog is testlog.js.
--   TestLog/Lines.antt is `countLines` and `splitHeadTail`; its children prove them against the lines
--   of the text (Lines/Spec.antt).
--   TestLog/Decode.antt is the browser's `TextDecoder`, a parameter with its behaviour on ASCII.
--   TestLog/LineDecoder.antt and TestLog/ReverseBuffer.antt are the two classes of those names.
--   TestLog/Loader.antt is the class `Loader` up to `iterLines`, TestLog/Tail.antt its other methods;
--   Tail/Back.antt follows the buffer of `_iterTailLines`, Tail/Loop.antt and Tail/Start.antt its loop,
--   and Tail/Visits.antt and Tail/Parts.antt the lines that the callbacks get. Tail/Long.antt,
--   Tail/Joined.antt, Tail/Short.antt and Tail/Cut.antt are `headAndTailLines` on the kinds of logs, and
--   Loader/Failed.antt is a request that is refused.
--   The server is a parameter, a function of a file name and a range of bytes; a theorem about a
--   fetched log says that the server answers range requests for the file.
--
-- Index is app-index.js: the grouping of the runs in `showFileListing` and `processClientGroups`,
-- with the sort and the limit. Index/Groups.antt is what stands under two keys, Index/Recent.antt
-- the sort. Index/Filters.antt is the classes of filters, as a state of the controls with the hash
-- of the URL and the last draw of the table, and Index/Filters/Options.antt their select boxes and
-- the search for a client; Index/Filters/Pattern.antt says which regular expressions say a text.
-- Index/Filters/Draws.antt follows the searches of the table over two filters. Index/Boxes.antt is
-- the boxes of the summary, which Index/Boxes/Listed.antt compares with the entries, and
-- Index/Summary.antt what sorts, groups and selects them: clicks, keys and the menu, with the
-- filters they set. Index/Listing.antt is what `showFileListing` shows first, and the cells of the
-- table, Index/Listing/Start.antt the request for the listing. Index/Since.antt is `timeSince`. What
-- jQuery matches for a selector is a parameter, as is what time a date stands for and how it is
-- written, and each date is taken as a valid one; an entry is what `JSON.parse` gives for a line.
--
-- Suite is app-suite.js: the times of a suite (Suite/Times.antt), the counts of its tests
-- (Suite/Stats.antt), and which test is open and selected (Suite/Selection.antt), on the rows of the
-- table. Dates are texts, as in the code, and what they parse to is a parameter. Suite/Output.antt is
-- the output of a test with its marks, Suite/Details.antt the box of a test, and Suite/Page.antt the page
-- from its URL to the table.
--
-- Html is html.js: `sanitizeHtml` and `makeDefinitionList`, on the nodes of a document, and in
-- Html/Button.antt `makeLink` and `makeButton`, which Index/Listing/Actions.antt uses for the buttons of
-- a row.
--
-- Common is app-common.js: the theme, the progress of a load and the header (Common/Header.antt).
--
-- Utils is utils.js: the format of a duration, by its parts, and of a size (Utils/Size.antt). How a
-- number is written is a parameter.
--
-- Browser is what the pages take from the browser for their URLs, a record of functions with their
-- behaviour, and Routes is routes.js with `queryParam` of utils.js.
--
-- Viewer is app-viewer.js: `showText`, `setHL` and `byteRangeToLineNumbers`. `TextEncoder` is a
-- parameter. The rows of the page are lists of flags. Viewer/Screen.antt is the page: the handler of the
-- ready event, `fetchFile` and `fetchTestLog`, for the parameters of the URL and for what loads come to.
--
-- Loops whose end is not plain take fuel. `countLines` has one round for each line and one more;
-- `splitHeadTail` the length of the text and 2; the inner loop of `iterLines` the length of the text
-- and 1; `iterLines` itself twice the length of the range and 2, since each round takes a byte from
-- the range or fetches one. The loop over the tail of a log takes its fuel as an argument: the size of the range,
-- the number of lines that are shown and 2 are enough for it. That these are enough is part of the
-- results.
--
-- Not modelled: the HTML itself, for which the elements and what they say stand; `encode` and `urlsToLinks`
-- of html.js, which are parameters; the DOM, jQuery, DataTables, bootstrap and Prism, and console output; `TextDecoder` and the server, which are parameters.
pub mod Base
pub mod Browser
pub mod Common
pub mod Html
pub mod Index
pub mod Maps
pub mod Routes
pub mod Sorting
pub mod Suite
pub mod TestLog
pub mod Utils
pub mod Viewer
