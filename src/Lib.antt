-- ===== src/Lib.antt =====
-- Verification of the browser code of SQLPage, a web server that builds pages from SQL queries. The
-- server writes HTML elements with a `data-pre-init` attribute, and the scripts below turn them into
-- tables, charts, maps and editors. Each script registers its function with add_init_fn of
-- sqlpage/sqlpage.js, which calls it when the page or a fragment of it has loaded.
--
-- Which file models which part (paths from the repository's root):
-- - RichText: examples/rich-text-editor/rich_text_editor.js, the conversions between the document of
--   a Quill editor (a delta) and a Markdown tree (mdast). RichText/Delta and RichText/Mdast are the
--   two data models. RichText/LineBreak is processLineBreak with the functions that it calls
--   (processListLineBreak, ensureList, processCodeBlockLineBreak, createTextNodes and others);
--   RichText/ToMdast is deltaToMdast, whose variables are the record State and whose loop is `run`;
--   RichText/ToDelta is mdastToDelta and traverseMdastNode. `currentList` is an alias of a node of
--   the tree and stands as the index of that node; `delta.ops`, which the traversal mutates, is
--   passed and returned. RichText/Grammar says which trees are documents.
-- - Editor: the rest of examples/rich-text-editor/rich_text_editor.js: setupSingleEditor and
--   initializeEditors on the records Field and Page, and the listeners of updateTextareaOnSubmit as
--   functions on a Field and an Event (`handle`), with the browser's validation before a submission.
--   A Field is one text area; what its form's other fields and listeners say to a submission is part
--   of the event. It uses RichText for markdownToDelta and deltaToMarkdown.
-- - Chart/Grouping: the loop of build_sqlpage_chart in sqlpage/apexcharts.js that groups the points
--   by series in an object, with the names that an object inherits and the order of Object.values.
-- - Chart/Palette: tblrColors, colorNames and the colours of a chart in sqlpage/apexcharts.js.
-- - Chart/Options: the rest of build_sqlpage_chart in sqlpage/apexcharts.js up to the options, on the
--   JSON of a chart (Chart/Data). Chart/Options/Series is the choice of the series and labels, with
--   Chart/Grouping and Chart/Align (`prepare`), and Chart/Options/Labels has the formatters.
-- - Chart/Build: what build_sqlpage_chart does to an element of the page, and the loop of
--   sqlpage_chart with its `try`. Chart/Tooltip: bubbleTooltip, whose elements are a tree.
-- - Chart/Align: align_categories of sqlpage/apexcharts.js. Its `while (true)` is `collect`, on fuel:
--   one more than the number of points, since each round but the last takes one point. The result is
--   an Option, whose `none` stands for an exception or for missing fuel.
-- - Table: the tables of sqlpage/sqlpage.js: table_parse_data, the search field (onSearch) and the
--   sort buttons (sort_items) on the record Table; Table/Format is apply_number_formatting and the
--   loop of sqlpage_table, with the exceptions of toLocaleString; Table/Setup is setup_table, which
--   puts them together on a TableElement. The order of equal items and of exceptions is that of
--   JavaScript's stable sort (Prelude/Orders), here an insertion sort.
-- - Leaflet: sqlpage_map of sqlpage/sqlpage.js as a state machine: the type Step has the insertion of
--   map elements, the calls of sqlpage_map and the load event of Leaflet's script.
--   Leaflet/Markers is what addMarker makes of an element (parseCoords, createMarker,
--   createGeoJSONMarker), and Leaflet/Views the timers of onLeafletLoad for one map (`show_map`), those
--   of the markers before that of the view.
-- - Cards: sqlpage_card of sqlpage/sqlpage.js as a state machine: the type Step has the events that
--   call sqlpage_card and the responses to its requests. A card holds the cards of its response, so
--   that the responses are a finite tree.
-- - Scripts: load_scripts of sqlpage/sqlpage.js, with the exception of `new URL`.
-- - Form: the size check of file inputs in sqlpage_form of sqlpage/sqlpage.js; Form/Listeners has the
--   listeners that each of its calls adds, also to the forms that submit themselves.
-- - Init: add_init_fn of sqlpage/sqlpage.js, as a trace of the calls that the document's events and the
--   timers make. Bootstrap: init_bootstrap_components of sqlpage/sqlpage.js.
-- - Select: sqlpage_load_options_source of sqlpage/tomselect.js, with the results of the fetch.
--   Select/Dropdown is sqlpage_select_dropdown and the reset of a form as a step relation; Tom Select
--   is an interface of operations and laws (TomSelect).
-- - Examples/CodeEditor: examples/SQLPage developer user interface/website/js/code-editor.js.
--   Examples/ReactComponent: examples/using react and other custom scripts and styles/
--   my_react_component.js.
-- - Prelude: the shared names. Texts are lists of UTF-16 code units, JavaScript's Set is a list in
--   the order of insertion, and comparisons have three results.
--
-- Parameters of the model are what the code takes from JavaScript's engine or the browser and what
-- is not written in the repository: lower case, white space, parseFloat, localeCompare and the
-- order of numbers (Table, with the laws of a total preorder for the two orders), dates, texts of
-- numbers and the test whether ApexCharts draws a chart (Chart), numbers and Leaflet's layers
-- (Leaflet), the resolution of URLs (Scripts, Cards), the response of a fetch and JSON.stringify
-- (Select), Tom Select (Select/Dropdown), and the parser and printer of Markdown and the
-- constructor of Quill (Editor).
--
-- Not modelled: the libraries Quill, fromMarkdown and toMarkdown, ApexCharts, Leaflet and Tom Select,
-- React, Monaco and Bootstrap, the DOM itself, the slides in examples/official-site/pgconf, which are a
-- bundle of other projects' libraries, and the server in src/, which is written in Rust.
pub mod Prelude
pub mod RichText
pub mod Chart
pub mod Table
pub mod Leaflet
pub mod Scripts
pub mod Select
pub mod Form
pub mod Editor
pub mod Cards
pub mod Init
pub mod Bootstrap
pub mod Examples
