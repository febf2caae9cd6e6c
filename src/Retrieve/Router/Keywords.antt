-- ===== src/Retrieve/Router/Keywords.antt =====
-- retrieve/router.rs: the keywords of `QueryRouter::new`. The source's sets have no order; the lists
-- have that of the source's text.
use wend_rag.Base.{List, [], ◌∷◌}
use wend_rag.Base.Text.{Text, codes}

unfoldable pub local_keywords : List Text
local_keywords =
    codes "what is"
    ∷ codes "what are"
    ∷ codes "who is"
    ∷ codes "who are"
    ∷ codes "where is"
    ∷ codes "where are"
    ∷ codes "when did"
    ∷ codes "when was"
    ∷ codes "when were"
    ∷ codes "how many"
    ∷ codes "how much"
    ∷ codes "define"
    ∷ codes "definition"
    ∷ codes "explain"
    ∷ codes "meaning of"
    ∷ codes "how do i"
    ∷ codes "how to"
    ∷ codes "how can i"
    ∷ codes "steps to"
    ∷ codes "guide to"
    ∷ codes "tutorial"
    ∷ codes "example"
    ∷ codes "sample"
    ∷ codes "code snippet"
    ∷ codes "exactly"
    ∷ codes "specifically"
    ∷ codes "precisely"
    ∷ codes "detail"
    ∷ codes "details"
    ∷ codes "list"
    ∷ codes "enumerate"
    ∷ codes "step by step"
    ∷ codes "in detail"
    ∷ codes "file"
    ∷ codes "function"
    ∷ codes "class"
    ∷ codes "method"
    ∷ codes "variable"
    ∷ codes "api"
    ∷ codes "endpoint"
    ∷ codes "database"
    ∷ codes "table"
    ∷ codes "column"
    ∷ codes "configuration"
    ∷ codes "is it true"
    ∷ codes "is it false"
    ∷ codes "correct"
    ∷ codes "incorrect"
    ∷ codes "true or false"
    ∷ codes "verify"
    ∷ codes "validate"
    ∷ codes "check"
    ∷ []

unfoldable pub global_keywords : List Text
global_keywords =
    codes "overview"
    ∷ codes "summary"
    ∷ codes "introduction"
    ∷ codes "about"
    ∷ codes "describe"
    ∷ codes "tell me about"
    ∷ codes "what do we know about"
    ∷ codes "general information"
    ∷ codes "explore"
    ∷ codes "discover"
    ∷ codes "learn about"
    ∷ codes "understand"
    ∷ codes "concepts"
    ∷ codes "patterns"
    ∷ codes "trends"
    ∷ codes "compare"
    ∷ codes "contrast"
    ∷ codes "difference between"
    ∷ codes "similarities"
    ∷ codes "relationships"
    ∷ codes "connections"
    ∷ codes "all"
    ∷ codes "every"
    ∷ codes "each"
    ∷ codes "overall"
    ∷ codes "big picture"
    ∷ codes "landscape"
    ∷ codes "ecosystem"
    ∷ codes "architecture"
    ∷ codes "framework"
    ∷ codes "approaches"
    ∷ codes "analyze"
    ∷ codes "analysis"
    ∷ codes "evaluate"
    ∷ codes "assessment"
    ∷ codes "review"
    ∷ codes "survey"
    ∷ codes "study"
    ∷ codes "research on"
    ∷ codes "investigation"
    ∷ codes "strategy"
    ∷ codes "plan"
    ∷ codes "roadmap"
    ∷ codes "vision"
    ∷ codes "goals"
    ∷ codes "objectives"
    ∷ codes "best practices"
    ∷ codes "recommendations"
    ∷ codes "guidelines"
    ∷ []
