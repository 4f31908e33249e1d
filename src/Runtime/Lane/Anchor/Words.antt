-- ===== src/Runtime/Lane/Anchor/Words.antt =====
-- The words of an instruction that name no element, and those that name a kind of element.
use lucy.Prelude.{List, [], ◌∷◌}
use lucy.Text.{Text, codes}

abbrev pub stopwords : List Text
stopwords =
    codes "click"
    ∷ codes "type"
    ∷ codes "press"
    ∷ codes "select"
    ∷ codes "the"
    ∷ codes "a"
    ∷ codes "an"
    ∷ codes "that"
    ∷ codes "this"
    ∷ codes "these"
    ∷ codes "those"
    ∷ codes "it"
    ∷ codes "its"
    ∷ codes "their"
    ∷ codes "there"
    ∷ codes "here"
    ∷ codes "and"
    ∷ codes "or"
    ∷ codes "but"
    ∷ codes "so"
    ∷ codes "if"
    ∷ codes "then"
    ∷ codes "than"
    ∷ codes "when"
    ∷ codes "where"
    ∷ codes "which"
    ∷ codes "who"
    ∷ codes "while"
    ∷ codes "until"
    ∷ codes "with"
    ∷ codes "without"
    ∷ codes "within"
    ∷ codes "into"
    ∷ codes "onto"
    ∷ codes "upon"
    ∷ codes "about"
    ∷ codes "over"
    ∷ codes "under"
    ∷ codes "after"
    ∷ codes "before"
    ∷ codes "between"
    ∷ codes "of"
    ∷ codes "for"
    ∷ codes "from"
    ∷ codes "at"
    ∷ codes "on"
    ∷ codes "in"
    ∷ codes "to"
    ∷ codes "as"
    ∷ codes "is"
    ∷ codes "are"
    ∷ codes "was"
    ∷ codes "were"
    ∷ codes "be"
    ∷ codes "been"
    ∷ codes "being"
    ∷ codes "do"
    ∷ codes "does"
    ∷ codes "did"
    ∷ codes "has"
    ∷ codes "have"
    ∷ codes "had"
    ∷ codes "not"
    ∷ codes "please"
    ∷ codes "now"
    ∷ codes "just"
    ∷ codes "only"
    ∷ codes "also"
    ∷ codes "both"
    ∷ codes "each"
    ∷ codes "every"
    ∷ codes "other"
    ∷ codes "another"
    ∷ codes "such"
    ∷ codes "some"
    ∷ codes "too"
    ∷ codes "can"
    ∷ codes "could"
    ∷ codes "should"
    ∷ codes "would"
    ∷ codes "will"
    ∷ codes "may"
    ∷ codes "might"
    ∷ codes "must"
    ∷ codes "you"
    ∷ codes "i"
    ∷ codes "my"
    ∷ codes "we"
    ∷ codes "us"
    ∷ codes "whose"
    ∷ codes "containing"
    ∷ codes "contains"
    ∷ codes "include"
    ∷ codes "includes"
    ∷ codes "including"
    ∷ codes "link"
    ∷ codes "button"
    ∷ codes "field"
    ∷ codes "box"
    ∷ codes "element"
    ∷ codes "page"
    ∷ codes "item"
    ∷ codes "text"
    ∷ codes "name"
    ∷ codes "named"
    ∷ codes "label"
    ∷ codes "tab"
    ∷ codes "row"
    ∷ codes "card"
    ∷ codes "entry"
    ∷ codes "menu"
    ∷ codes "header"
    ∷ codes "footer"
    ∷ codes "toolbar"
    ∷ codes "icon"
    ∷ codes "image"
    ∷ codes "picture"
    ∷ codes "photo"
    ∷ codes "thumbnail"
    ∷ codes "song"
    ∷ codes "track"
    ∷ codes "option"
    ∷ codes "section"
    ∷ codes "window"
    ∷ codes "screen"
    ∷ codes "result"
    ∷ codes "results"
    ∷ codes "video"
    ∷ codes "videos"
    ∷ codes "search"
    ∷ codes "first"
    ∷ codes "second"
    ∷ codes "third"
    ∷ codes "fourth"
    ∷ codes "one"
    ∷ codes "two"
    ∷ codes "three"
    ∷ codes "left"
    ∷ codes "right"
    ∷ codes "top"
    ∷ codes "bottom"
    ∷ codes "last"
    ∷ codes "next"
    ∷ codes "previous"
    ∷ codes "again"
    ∷ []

abbrev pub generic_words : List Text
generic_words =
    codes "title"
    ∷ codes "titled"
    ∷ codes "thumbnail"
    ∷ codes "image"
    ∷ codes "picture"
    ∷ codes "photo"
    ∷ codes "song"
    ∷ codes "track"
    ∷ codes "row"
    ∷ codes "card"
    ∷ codes "entry"
    ∷ codes "icon"
    ∷ codes "widget"
    ∷ codes "control"
    ∷ codes "option"
    ∷ codes "section"
    ∷ codes "content"
    ∷ codes "thing"
    ∷ codes "things"
    ∷ []
