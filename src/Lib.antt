-- ===== src/Lib.antt =====
-- A model of the frontend's own logic: the admin panel's forms, the API client, the
-- contact form, and where the public pages take their reader.
--
-- The admin panel edits collections of rows. A collection (frontend/src/admin/collections.ts) names
-- its fields; the editor holds a draft, a JSON value read and written by dotted paths (draft.ts);
-- the draft is checked before it is saved (validation.ts), sent as a payload, and the server's
-- rejections are placed back on the form. The list of a collection moves and deletes rows. Every
-- request goes through one client, whose failures the forms turn into what they show.
--
-- Files and what they model (paths under frontend/src):
--   Base, Base/Tests, Base/Lists: Boolean tests and lists on the native numbers.
--   Base/Text: JavaScript strings as lists of UTF-16 units. Base/Dict: records with text keys.
--   Json: JSON values and isSameJson of content/isSameContent.ts; Json/Keys, Json/Same and
--     Json/Equivalence are its laws.
--   Draft: admin/draft.ts (getAt is get_at, setAt is set_at, trimDeep is trim_deep, and so on);
--     Draft/Index is Number(segment), the item of a list that a segment names. JavaScript's writes never
--     fail: a write whose list would have a gap, or a property that is no index, is none here.
--   Slug: admin/slugify.ts. Fields: admin/fields.ts.
--   Collections: admin/collections.ts; Types has the ids and the record, Build the builders, Work,
--     Showcase and Profile the eleven collections, Shape and Payload their laws, Rows the rows as
--     admin/schemas.ts types them, with their JSON values in Rows/Values.
--   Validation: validateDraft of admin/validation.ts; Patterns its regular expressions, Rules what a
--     draft has to meet, ErrorSlots errorSlots and mapServerFields.
--   Client: api/client.ts, from what fetch and the body reader give to the result or the error.
--   Editor: admin/editor/ContentEditorForm.tsx and EditorLoader.tsx; Rows has the loaded rows, Typing
--     the edits, Saving the request, Answers what comes back, Lifetime the form as a step relation. The
--     tab's storage may refuse each write of the kept draft, which an argument of the step says.
--   Controls: admin/editor/EditorField.tsx with SlugField.tsx and LocalizedTextField.tsx, the controls
--     of a field as the paths whose errors they ask for.
--   RowEditors: admin/editor/TagListEditor.tsx, BulletsEditor.tsx, EndMonthField.tsx and RowActions.tsx.
--   SignIn: admin/pages/LoginPage.tsx, and in SignIn/Code its second step, LoginCodeStep.tsx.
--   Security: admin/security/TotpConfirmForm.tsx, and in Security/Page admin/pages/SecurityPage.tsx.
--   Shell: admin/shell/AdminLayout.tsx; Badge the summary with the unread count, Guard the unsaved
--     changes, Notice the status line, SignOut the sign-out and the menu; Guard/Links the links that
--     ask first, of admin/hooks/useGuardedClick.ts and useUnsavedChanges.ts.
--   Dialog: admin/components/ConfirmDialog.tsx.
--   Theme: theme/theme.ts and useTheme.ts. ActiveSection: animations/useActiveSection.ts.
--   Reading: the reader of the home page; Landing is animations/useHashScroll.ts, Anchor
--     useScrollAnchor.ts, Arrivals sectionArrival.ts, Regions sections/sectionIds.ts.
--   LanguageSwitch: components/LanguageSwitcher.tsx. Modals: components/MobileMenu.tsx and
--     ContactDialog.tsx.
--   FileChecks: the checks of files in admin/pages/CvPage.tsx and admin/editor/ProjectImageSection.tsx.
--   SiteContent: content/useContent.ts. Segments: segmentWords of animations/splitText.ts.
--   Turnstile: components/useTurnstile.ts. Contact: components/ContactForm.tsx, its checks, and in
--     Contact/Submission its handlers as a step relation.
--   ContentList: admin/content/ContentList.tsx.
--   Uploads: admin/hooks/useFileUpload.ts and useConfirmedAction.ts.
--   DraftStore: admin/draftStore.ts. Api: admin/api.ts and api/contact.ts, the requests they make, and
--     displayOrder.
--   Query: admin/hooks/useAdminQuery.ts.
--   Inbox: the read state of admin/pages/MessagesPage.tsx, with the badge of AdminLayout.tsx, and in
--     Inbox/Paging its pages.
--   Session: admin/session. Paths: admin/paths.ts.
--   Codes: admin/totpCode.ts, admin/retryText.ts and i18n/languages.ts.
--   Tests: runs at concrete input.
--
-- Strings are measured in UTF-16 units, and in code points where the source does so. The number of a
-- JSON value is its bit pattern, so that Object.is is equality. undefined is none.
--
-- Fuel: climb (Validation/ErrorSlots) searches the slots upwards from a path with one round more
-- than the path has units; each round drops at least the last dot, so the search ends by itself
-- before. show_nat gives a number one digit more than its value.
--
-- Parameters: JSON text, the encoding of URL parts, the Unicode folding of slugify, the browser's URL
-- parser, the schemas of the client, the segments and patterns of segmentWords, the static content,
-- the engine's sort, its subtraction of two numbers, and its Number where the client reads an
-- integer that is not negative.
--
-- Not modelled: markup, focus, translated texts and the titles of list rows; the canvas and scroll
-- effects, which compute in floating point over browser interfaces, and positions on the screen; the
-- schemas of api/schemas.ts and the parsing by the zod library, which are declarations for another
-- library; the pages that only lay out modelled parts; the backend.
pub mod Base
pub mod Json
pub mod Draft
pub mod Slug
pub mod Fields
pub mod Validation
pub mod Collections
pub mod Client
pub mod Turnstile
pub mod Contact
pub mod ContentList
pub mod Uploads
pub mod DraftStore
pub mod Editor
pub mod RowEditors
pub mod Codes
pub mod Paths
pub mod Inbox
pub mod Session
pub mod SignIn
pub mod Shell
pub mod Segments
pub mod SiteContent
pub mod Security
pub mod Theme
pub mod Reading
pub mod LanguageSwitch
pub mod Modals
pub mod Controls
pub mod Dialog
pub mod ActiveSection
pub mod FileChecks
pub mod Api
pub mod Query
pub mod Tests
